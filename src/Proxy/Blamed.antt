-- ===== src/Proxy/Blamed.antt =====
-- backend/internal/proxy/proxy.go and backend/internal/calls/calls.go: whom the finalized rows blame.
use Prim.Native.String.{◌++◌ as str_append}
use songguo.Prelude.{
  ℕ, suc, ◌≤◌, ◌≡◌, refl, Bool, true, false, ◌&&◌, not, Option, List, [], ◌∷◌, ◌++◌, String, arith,
  if◌then◌else◌, str_eq,
}
use songguo.Prelude.Int.{pos}
use songguo.Outcome.{outcome_of, is_provider_failure}
use songguo.Router.Health.{neutral, TransportError, classify}
use songguo.Router.Select.{Target}
use songguo.Proxy.{
  User, UserLookup, found, not_found, lookup_failed, Row, Effect, respond, charge, finalize,
  save_body, acquire, release, dial, report, if_any, deny, Request,
}
use songguo.Proxy.Resolve.{Wire, Plan, refused, planned, resolve, deny_row, unmatched_row}
use songguo.Proxy.Forward.{forward, Response, attempt_of}
use songguo.Proxy.Serve.{
  World, Reply, failed, answered, after_dial, with_slot, dispatch, follow, serve_user, serve_found,
  serve_lookup, serve, target_row, failed_row, is_exhausted,
}
use songguo.Proxy.Refusals.{
  Refusal, by_model, by_route, by_wire, by_vendor, OnRefusal, resolve-OnRefusal,
}
use songguo.Proxy.Tally.{if-elim}
use songguo.Proxy.Texts.{unmatched_blameless, unmatched_named, transport_blamed, transport_named}

-- The outcome of a row counts against its provider.
abbrev pub is_blaming : Row → Bool
is_blaming row = is_provider_failure (outcome_of row.status row.err)

-- The rows that count against a provider, and the dials.
abbrev pub blaming : List Effect → ℕ
blaming [] = 0
blaming (finalize row ∷ es) = if is_blaming row then suc (blaming es) else blaming es
blaming (e ∷ es) = blaming es

abbrev pub dials : List Effect → ℕ
dials [] = 0
dials (dial vendor ∷ es) = suc (dials es)
dials (e ∷ es) = dials es

-- No more rows blame a provider than providers were dialed.
record IsJust (es : List Effect) : Type 0 where
  bounded : blaming es ≤ dials es

blaming-snoc :
    (es : List Effect) (credential : String)
    → (blaming (es ++ release credential ∷ []) ≡ blaming es)
      × (dials (es ++ release credential ∷ []) ≡ dials es)
blaming-snoc [] credential = (refl, refl)
blaming-snoc (finalize row ∷ es) credential = ground (arith, blaming-snoc es credential)
blaming-snoc (dial vendor ∷ es) credential = ground (arith, blaming-snoc es credential)
blaming-snoc (e ∷ es) credential = blaming-snoc es credential

slot-IsJust :
    (credential : String) (es : List Effect)
    → IsJust es
    → IsJust (acquire credential ∷ (es ++ release credential ∷ []))
slot-IsJust credential es j = omega (arith, blaming-snoc es credential, j.bounded)

body-IsJust :
    (capture : Bool) (es : List Effect) → IsJust es → IsJust (if_any capture save_body ++ es)
body-IsJust true es j = omega (arith, j.bounded)
body-IsJust false es j = j

deny-IsJust :
    (capture : Bool) (row : Row) (status : ℕ) (reason : String)
    → is_provider_failure (outcome_of (pos status) (if str_eq row.err "" then reason else row.err))
      ≡ false
    → IsJust (deny capture row status reason)
unfolding deny
deny-IsJust capture row status reason h = ground arith

forward-blaming :
    (u : User) (r : Request) (t : Target) (wire : Option Wire) (capture allowed gone : Bool)
    (resp : Response)
    → IsJust (dial t.vendor.name ∷ forward u r t wire capture allowed gone resp)
unfolding forward
forward-blaming u r t wire capture allowed gone resp = ground arith

after_dial-IsJust :
    (w : World) (capture : Bool) (u : User) (r : Request) (t : Target) (wire : Option Wire)
    (reply : Reply)
    → IsJust (dial t.vendor.name ∷ after_dial w capture u r t wire reply)
unfolding after_dial deny
after_dial-IsJust w capture u r t wire (failed text e) = ground arith
after_dial-IsJust w capture u r t wire (answered resp) =
    forward-blaming u r t wire _ w.allows_analysis w.gone resp

slugs_blameless :
    (is_provider_failure (outcome_of (pos 402) "budget_exceeded") ≡ false)
    × (is_provider_failure (outcome_of (pos 429) "rate_limited") ≡ false)
    × (is_provider_failure (outcome_of (pos 499) "client_gone") ≡ false)
    × (is_provider_failure (outcome_of (pos 502) "request_build_failed") ≡ false)
    × (is_provider_failure (outcome_of (pos 403) "model_not_allowed") ≡ false)
    × (is_provider_failure (outcome_of (pos 403) "vendor_not_allowed") ≡ false)
    × (is_provider_failure (outcome_of (pos 502) "no_upstream") ≡ false)
unfolding outcome_of is_provider_failure
slugs_blameless = (refl, refl, refl, refl, refl, refl, refl)

with_slot-IsJust :
    (w : World) (capture : Bool) (u : User) (r : Request) (t : Target) (wire : Option Wire)
    → IsJust (with_slot w capture u r t wire)
unfolding with_slot
with_slot-IsJust w capture u r t wire = slot-IsJust t.credential.id _ (
    if-elim IsJust w.built _ _ (after_dial-IsJust w capture u r t wire w.reply) (
      deny-IsJust false (record (target_row u r t) { err = "request_build_failed" }) 502
        "upstream_error" (slugs_blameless.3)))

dispatch-IsJust :
    (w : World) (capture : Bool) (u : User) (r : Request) (t : Target) (wire : Option Wire)
    → IsJust (dispatch w capture u r t wire)
unfolding dispatch
dispatch-IsJust w capture u r t wire =
    let refuse = deny-IsJust capture (target_row u r t) in
    if-elim IsJust (is_exhausted u w) _ _ (refuse 402 "budget_exceeded" slugs_blameless.0) (
      if-elim IsJust (not w.allowed) _ _ (refuse 429 "rate_limited" slugs_blameless.1) (
        body-IsJust capture _ (
          if-elim IsJust w.acquired _ _ (with_slot-IsJust w capture u r t wire)
            (deny-IsJust false (target_row u r t) 499 "client_gone" slugs_blameless.2))))

follow-IsJust :
    (w : World) (capture : Bool) (u : User) (r : Request) (p : Plan)
    → OnRefusal IsJust p
    → IsJust (follow w capture u r p)
unfolding follow
follow-IsJust w capture u r (refused es) h = h
follow-IsJust w capture u r (planned t wire) h = dispatch-IsJust w capture u r t wire

Refusal-IsJust :
    (capture : Bool) (u : User) (r : Request) (row : Row) (status : ℕ) (reason : String)
    → Refusal u r row status reason
    → IsJust (deny capture row status reason)
Refusal-IsJust capture u r _ _ _ by_model =
    deny-IsJust capture (deny_row u r "") 403 "model_not_allowed" slugs_blameless.4
Refusal-IsJust capture u r _ _ _ by_route =
    deny-IsJust capture (deny_row u r "") 502 "no_upstream" slugs_blameless.6
Refusal-IsJust capture u r _ _ _ by_vendor =
    deny-IsJust capture (deny_row u r "") 403 "vendor_not_allowed" slugs_blameless.5
Refusal-IsJust capture u r _ _ _ (by_wire names) =
    deny-IsJust capture (unmatched_row u r names) 404 "wire_unmatched" (
      ground (
        arith,
        unmatched_blameless 404 (str_append r.method (str_append " " r.path)),
        unmatched_named (str_append r.method (str_append " " r.path)),
      ))

-- A row counts against a provider only if the request dialed one: the refusals of the gateway, the
-- client's departure and a request that could not be built are never held against a provider.
pub serve-IsJust : (w : World) (r : Request) → blaming (serve w r) ≤ dials (serve w r)
unfolding serve serve_lookup serve_found serve_user
serve-IsJust w r = (if-elim IsJust (str_eq r.key "") _ _ (omega arith) (looked_up w.users)).bounded
  where
    known : (u : User) → IsJust (serve_user w u r)
    known u =
        let capture = u.capture && not w.sheds_capture in
        let j =
          follow-IsJust w capture u r (resolve w.select w.match capture u r)
            (resolve-OnRefusal IsJust capture u r (Refusal-IsJust capture u r) w.select w.match) in
        record { bounded = j.bounded }

    looked_up : (l : UserLookup) → IsJust (serve_lookup w l r)
    looked_up (found u) =
        if-elim IsJust r.is_websocket _ _ (omega arith)
          (if-elim IsJust (not r.body_read) _ _ (omega arith) (known u))
    looked_up not_found = omega arith
    looked_up lookup_failed = omega arith

-- A client that leaves before the provider answers: the router is told that nothing is known of
-- the provider, and the row that is finalized counts against it all the same.
pub hangup_blames :
    (w : World) (capture : Bool) (u : User) (r : Request) (t : Target) (wire : Option Wire)
    (text : String) (e : TransportError)
    → w.gone ≡ true
    → (row : Row) × (after_dial w capture u r t wire (failed text e)
        ≡ report (attempt_of r t) neutral
          ∷ respond 502 "upstream_error"
          ∷ charge row.user row.cost
          ∷ finalize row
          ∷ [])
      × (is_blaming row ≡ true)
unfolding after_dial deny classify
hangup_blames w capture u r t wire text e h = (
  record (failed_row u r t text) { status = pos 502 },
  rw (h, transport_named text) refl,
  transport_blamed text,
)
