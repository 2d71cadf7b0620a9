-- ===== src/Proxy/Serve.antt =====
-- backend/internal/proxy/proxy.go: ServeHTTP.
use Prim.Native.String.{◌++◌ as str_append}
use songguo.Prelude.{
  Bool, false, ◌&&◌, not, Option, none, some, List, [], ◌∷◌, ◌++◌, String, if◌then◌else◌, str_eq,
}
use songguo.Prelude.Int.{ℤ, pos, leb_ℤ}
use songguo.Router.Health.{TransportError, classify}
use songguo.Router.Select.{Selector, Target}
use songguo.Proxy.{
  User, UserLookup, found, not_found, lookup_failed, Row, Effect, respond, upgrade, create_row,
  save_body, acquire, release, dial, report, if_any, deny, Request, billing_model,
}
use songguo.Proxy.Resolve.{Wire, Plan, refused, planned, resolve}
use songguo.Proxy.Forward.{Response, forward, attempt_of}

-- What `outbound.Do` answers: an error, with its text and what `Classify` asks of it, or a response.
pub data Reply : Type 0 where
  failed : String → TransportError → Reply
  answered : Response → Reply

-- What the other parts answer to one request: `select` is the router's, where `none` is any error,
-- and `match` is `wire.Resolve` at the method and path; `sheds_capture` is whether the pressure
-- monitor sheds capture when the request starts and when it ends, `allows_analysis` what its
-- `Analysis` answers; `spent` is `spend.Get`, where `none` is an error; `allowed` is the rate
-- limiter's `allow`; `acquired` is false where the client left while it waited for a slot; `built`
-- is whether the upstream request could be built; and `gone` whether the client's context is done
-- after the reply.
pub record World : Type 0 where
  pub users : UserLookup
  pub select : Selector → Option (List Target)
  pub match : List String → Option Wire
  pub sheds_capture : Bool
  pub sheds_capture_later : Bool
  pub allows_analysis : Bool
  pub spent : Option ℤ
  pub allowed : Bool
  pub acquired : Bool
  pub built : Bool
  pub reply : Reply
  pub gone : Bool

-- The row of a refusal once a target is known.
abbrev pub target_row : User → Request → Target → Row
target_row u r t = record {
  user = u.id;
  model = billing_model r;
  vendor = t.vendor.name;
  credential = t.credential.id;
  status = pos 0;
  err = "";
  cost = pos 0;
}

abbrev pub failed_row : User → Request → Target → String → Row
failed_row u r t text = record (target_row u r t) { err = str_append "transport_error: " text }

-- From the reply on.
unfoldable pub after_dial :
    World → Bool → User → Request → Target → Option Wire → Reply → List Effect
unfolding deny forward
after_dial w capture u r t wire (failed text e) =
    report (attempt_of r t) (classify 0 (some e) w.gone)
    ∷ deny false (failed_row u r t text) 502 "upstream_error"
after_dial w capture u r t wire (answered resp) =
    forward u r t wire (capture && not w.sheds_capture_later) w.allows_analysis w.gone resp

-- With a slot, which the deferred call gives back.
unfoldable pub with_slot : World → Bool → User → Request → Target → Option Wire → List Effect
unfolding after_dial deny
with_slot w capture u r t wire =
    acquire t.credential.id
    ∷ ((if w.built
          then dial t.vendor.name ∷ after_dial w capture u r t wire w.reply
          else deny false (record (target_row u r t) { err = "request_build_failed" }) 502
              "upstream_error")
        ++ release t.credential.id ∷ [])

-- `user.Budget != nil`, and `Get` answers that it is used up.
abbrev pub is_exhausted : User → World → Bool
is_exhausted u w = elim u.budget [
  | none ↦ false
  | some budget ↦ elim w.spent [ none ↦ false | some spent ↦ leb_ℤ budget spent ]
]

-- From a plan on: the budget, the rate limit, the request's body, the slot.
unfoldable pub dispatch : World → Bool → User → Request → Target → Option Wire → List Effect
unfolding with_slot deny
dispatch w capture u r t wire =
    if is_exhausted u w
    then deny capture (target_row u r t) 402 "budget_exceeded"
    else if not w.allowed
    then deny capture (target_row u r t) 429 "rate_limited"
    else if_any capture save_body
      ++ (if w.acquired
          then with_slot w capture u r t wire
          else deny false (target_row u r t) 499 "client_gone")

unfoldable pub follow : World → Bool → User → Request → Plan → List Effect
unfolding dispatch
follow w capture u r (refused effects) = effects
follow w capture u r (planned t wire) = dispatch w capture u r t wire

-- A request of a known user whose body was read.
unfoldable pub serve_user : World → User → Request → List Effect
unfolding follow
serve_user w u r =
    let capture = u.capture && not w.sheds_capture in
    create_row u.id ∷ follow w capture u r (resolve w.select w.match capture u r)

unfoldable pub serve_found : World → User → Request → List Effect
unfolding serve_user
serve_found w u r =
    if r.is_websocket
    then upgrade ∷ []
    else if not r.body_read
    then respond 400 "bad_request" ∷ []
    else serve_user w u r

unfoldable pub serve_lookup : World → UserLookup → Request → List Effect
unfolding serve_found
serve_lookup w (found u) r = serve_found w u r
serve_lookup w not_found r = respond 401 "unauthorized" ∷ []
serve_lookup w lookup_failed r = respond 500 "internal" ∷ []

-- `ServeHTTP`
unfoldable pub serve : World → Request → List Effect
unfolding serve_lookup
serve w r = if str_eq r.key "" then respond 401 "unauthorized" ∷ [] else serve_lookup w w.users r
