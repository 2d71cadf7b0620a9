-- ===== src/Lib.antt =====
-- Songguo is a gateway in front of AI providers: it swaps credentials, meters calls and forwards
-- everything else untouched. This library models the logic that decides which provider serves a
-- request and when, and proves what makes it correct.
--
-- The parts and how they interact. The providers of the store become the vendors of a configuration
-- (backend/internal/configsvc). A configuration of vendors is normalized, validated and indexed into an
-- immutable snapshot (backend/internal/config). For each request the router
-- (backend/internal/router) takes the vendors of the snapshot that match and orders them by health,
-- session pin, priority and a weighted draw. The proxy (backend/internal/proxy) keeps those that have
-- a wire for the path (backend/internal/wire) and that the scope of the user allows, and sends the
-- request to the first. The outcome comes back to the router as a signal, which changes the health of
-- vendors and so the order for later requests. Before a request is sent it waits at a gate
-- (backend/internal/concurrency) that bounds the requests in flight to one credential, and before
-- that the rate limiter of the proxy may refuse its user. A monitor (backend/internal/pressure)
-- sheds the gateway's own bookkeeping when the machine runs short, and each finished call is stored
-- with a status and a slug from which its outcome is read (backend/internal/calls), and with a cost
-- (backend/internal/pricing) at the rates of the catalogue (backend/internal/catalog). The spend of a
-- user is a running total that each finished call adds to and that is flushed to the store
-- (backend/internal/spend), and call records go to the store through a queue with one writer
-- (backend/internal/ledger). A response is read by lines as it passes (backend/internal/wire), and a
-- stored request carries a fingerprint of its messages (backend/internal/parse), which a
-- queue of the proxy computes and from which the store chooses the bodies that hold a whole session (backend/internal/store).
--
-- Files, with the code that they model:
--   Prelude        shared names; Prelude/Map: Go's maps with text keys as association lists (the
--                  order of the list stands for the order of a range loop); Prelude/Sort: Go's sort
--                  package; Prelude/Int: Go's int where it may be negative; Prelude/Time: durations;
--                  Prelude/Member: membership in a list
--   Gate           backend/internal/concurrency/gate.go: the state and the critical sections
--   Gate/System    goroutines at one gate as a step relation, a step for each critical section
--   Catalog        backend/internal/catalog/catalog.go: the cost types; Catalog/Clock: parseClock and the
--                  windows; Catalog/Rates: Resolve, atTier, atSchedule, ValidateCost
--   Pricing        backend/internal/pricing/pricing.go: Cost, promptTokens, tokenCost
--   Config         backend/internal/config/config.go: the vendor types
--   Config/Prices    validatePrices
--   Config/Validate  Build and validate, the text of an error left out
--   Config/Snapshot  normalize, and snapshot.go: newSnapshot and its lookups
--   Router/Affinity  backend/internal/router/affinity.go: get, set, sweepLocked, evictLocked, countFor
--   Router/Health    backend/internal/router/health.go: Classify, the cooldowns, and how one vendor's
--                  health takes a signal
--   Router/Health/Attempts  ReportAttempt, the ranks and ResetHealth over all vendors; its child
--                  Watched keeps beside the state what was reported and logged of each vendor
--   Router/Options   backend/internal/router/router.go: the knobs and their defaults
--   Router/Select    Select, order, rankVendors, weightedDraw and Pin
--   Pressure         backend/internal/pressure/pressure.go: New, sample, set, Level, Capture, Analysis, and the
--                  time to restore that Stats reports
--   RateLimit        backend/internal/proxy/ratelimit.go: allow
--   Spend            backend/internal/spend/spend.go: Add, Get, Flush, Forget by critical sections;
--                  Spend/Flush: a whole Flush alone; Spend/System: goroutines at one tracker,
--                  where any of these calls may come at any time
--   Ledger           backend/internal/ledger/ledger.go: Submit, the budget of bodies, apply, retryBusy,
--                  WriteLag; Ledger/System: requests and the one writer goroutine
--   Proxy            backend/internal/proxy/proxy.go: ServeHTTP as the sequence of calls that a request
--                  makes of the other parts: Proxy/Resolve is resolve, Proxy/Forward what forward does
--                  with an answer, Proxy/Serve ServeHTTP itself; Proxy/Held is an order of the calls
--                  that the proofs hold it against
--   ParseQueue       backend/internal/proxy/pipeline.go: submit and worker, as goroutines at one queue
--   Wire             backend/internal/wire/wire.go: Resolve and normalizePath
--   Wire/Lines       backend/internal/wire/scanner.go: Write and appendPartial, over a stream in pieces
--   Fingerprint      backend/internal/parse/fingerprint.go: Fingerprint, writeMessage, writeField
--   Cover            backend/internal/store/messagecover.go: extends, messageCover
--   Manager          backend/internal/configsvc/manager.go: Manager/Prices the rates and whose is lent;
--                  Manager/Table the prices and routes of a provider; Manager/Groups its vendors;
--                  Manager/Reload build, Reload and NewManager
--   Outcome          backend/internal/calls/calls.go: OutcomeOf, BlameFor, IsProviderFailure, IsPolicyDenial
-- A method that changes its receiver returns the new record. The children of a module prove what
-- holds of it, and its Tests run it on small inputs.
--
-- Conventions. Instants are nanoseconds, and 0 is the zero time.Time; only the windows of a price
-- count seconds, from 1970 on. A clock reading is an argument. Durations in the cooldowns are bit patterns of an int64, with wrap-around; elsewhere
-- instants and durations do not overflow, and a measured duration is not negative. Counters and
-- lengths do not reach the width of an int. Text is the native String. A mutex is taken to exclude,
-- so that a critical section is one function. Values are not aliased, so that cloneVendor is the
-- identity. float64 and math.Log enter the router as a record of a type without NaN, its order and
-- the draw; random samples are a stream. The monitor likewise takes the operators of float64 that
-- it uses, and what its probes answer is an argument of each sample. Errors of the transport enter as what errors.Is and
-- errors.As answer about them. Rates and usage are whole numbers of a small
-- unit, and a cost is counted in millionths of the unit of the rates, so that nothing is rounded.
-- Loops are structural recursions on a list or on the rounds that are left; only the search for a free
-- name of a vendor has fuel, one more than the names in use, of which each try rules out one.
--
-- Not modelled: HTTP, WebSocket and SQL input and output, JSON decoding of bodies, logging beyond
-- which transition is logged, the dashboard, the
-- admin interface and the statistics, and metering, which reads a call's usage from its body.
pub mod Ledger
pub mod Manager
pub mod Outcome
pub mod ParseQueue
pub mod Prelude
pub mod Pressure
pub mod Pricing
pub mod Proxy
pub mod RateLimit
pub mod Spend
pub mod Wire
pub mod Cover
pub mod Fingerprint
pub mod Gate
pub mod Catalog
pub mod Config
pub mod Router
