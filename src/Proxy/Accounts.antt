-- ===== src/Proxy/Accounts.antt =====
-- backend/internal/proxy/proxy.go: every request is answered once and leaves nothing open.
use songguo.Prelude.{
  ℕ, ◌≤◌, ◌≡◌, Bool, true, false, ◌&&◌, not, Option, none, some, List, [], ◌∷◌, ◌++◌, String, arith,
  str_eq,
}
use songguo.Router.Select.{Target}
use songguo.Proxy.{
  User, UserLookup, found, not_found, lookup_failed, Row, Effect, save_body, acquire, release, dial,
  if_any, deny, Request,
}
use songguo.Proxy.Resolve.{Wire, Plan, refused, planned, resolve}
use songguo.Proxy.Forward.{forward, Response}
use songguo.Proxy.Serve.{
  World, Reply, failed, answered, after_dial, with_slot, dispatch, follow, serve_user, serve_found,
  serve_lookup, serve, is_exhausted, target_row,
}
use songguo.Proxy.Tally.{tally, tally-append, if-elim}
use songguo.Proxy.Held.{after, row_opened, row_closed, after-slot}
use songguo.Proxy.Refusals.{OnRefusal, resolve-OnRefusal}

-- A request whose row is open finalizes it, and charges it, and is answered, each once, in an order
-- that the calls allow. It has the slot, if any, before and after.
record IsSettled (slot : Option String) (es : List Effect) : Type 0 where
  creates : (tally es).creates ≡ 0
  finals : (tally es).finals ≡ 1
  charges : (tally es).charges ≡ 1
  answers : (tally es).answers ≡ 1
  slots : (tally es).acquires ≡ (tally es).releases
  reports : (tally es).dials ≡ (tally es).reports
  dials : (tally es).dials ≤ 1
  in_order : after es (row_opened slot) ≡ some (row_closed slot)

deny-IsSettled :
    (slot : Option String) (capture : Bool) (row : Row) (status : ℕ) (reason : String)
    → IsSettled slot (deny capture row status reason)
unfolding deny
deny-IsSettled slot true row status reason = ground arith
deny-IsSettled slot false row status reason = ground arith

forward-IsSettled :
    (u : User) (r : Request) (t : Target) (wire : Option Wire) (capture allowed gone : Bool)
    (resp : Response)
    → IsSettled
        (some t.credential.id)
        (dial t.vendor.name ∷ forward u r t wire capture allowed gone resp)
unfolding forward
forward-IsSettled u r t wire capture allowed gone resp = ground arith

after_dial-IsSettled :
    (w : World) (capture : Bool) (u : User) (r : Request) (t : Target) (wire : Option Wire)
    (reply : Reply)
    → IsSettled (some t.credential.id) (dial t.vendor.name ∷ after_dial w capture u r t wire reply)
unfolding after_dial deny
after_dial-IsSettled w capture u r t wire (failed text e) = ground arith
after_dial-IsSettled w capture u r t wire (answered resp) =
    forward-IsSettled u r t wire _ w.allows_analysis w.gone resp

slot-IsSettled :
    (credential : String) (es : List Effect)
    → IsSettled (some credential) es
    → IsSettled none (acquire credential ∷ (es ++ release credential ∷ []))
slot-IsSettled credential es s =
    let sum = tally-append es (release credential ∷ []) in
    record {
      creates = ground (arith, sum, s.creates);
      finals = ground (arith, sum, s.finals);
      charges = ground (arith, sum, s.charges);
      answers = ground (arith, sum, s.answers);
      slots = ground (arith, sum, s.slots);
      reports = ground (arith, sum, s.reports);
      dials = ground (arith, sum, s.dials);
      in_order = after-slot credential es s.in_order;
    }

body-IsSettled :
    (capture : Bool) (es : List Effect)
    → IsSettled none es
    → IsSettled none (if_any capture save_body ++ es)
body-IsSettled true es s =
    ground
      (arith, s.creates, s.finals, s.charges, s.answers, s.slots, s.reports, s.dials, s.in_order)
body-IsSettled false es s = s

with_slot-IsSettled :
    (w : World) (capture : Bool) (u : User) (r : Request) (t : Target) (wire : Option Wire)
    → IsSettled none (with_slot w capture u r t wire)
unfolding with_slot
with_slot-IsSettled w capture u r t wire = slot-IsSettled t.credential.id _ (
    if-elim (IsSettled (some t.credential.id)) w.built _ _
      (after_dial-IsSettled w capture u r t wire w.reply)
      (deny-IsSettled (some t.credential.id) false
        (record (target_row u r t) { err = "request_build_failed" }) 502 "upstream_error"))

dispatch-IsSettled :
    (w : World) (capture : Bool) (u : User) (r : Request) (t : Target) (wire : Option Wire)
    → IsSettled none (dispatch w capture u r t wire)
unfolding dispatch
dispatch-IsSettled w capture u r t wire =
    let refuse = deny-IsSettled none capture (target_row u r t) in
    if-elim (IsSettled none) (is_exhausted u w) _ _ (refuse 402 "budget_exceeded") (
      if-elim (IsSettled none) (not w.allowed) _ _ (refuse 429 "rate_limited") (
        body-IsSettled capture _ (
          if-elim (IsSettled none) w.acquired _ _ (with_slot-IsSettled w capture u r t wire)
            (deny-IsSettled none false (target_row u r t) 499 "client_gone"))))

follow-IsSettled :
    (w : World) (capture : Bool) (u : User) (r : Request) (p : Plan)
    → OnRefusal (IsSettled none) p
    → IsSettled none (follow w capture u r p)
unfolding follow
follow-IsSettled w capture u r (refused es) h = h
follow-IsSettled w capture u r (planned t wire) h = dispatch-IsSettled w capture u r t wire

-- What every request leaves behind.
pub record IsAccounted (es : List Effect) : Type 0 where
  pub answers : (tally es).answers ≡ 1
  pub rows : (tally es).creates ≡ (tally es).finals
  pub row : (tally es).creates ≤ 1
  pub charges : (tally es).charges ≡ (tally es).finals
  pub slots : (tally es).acquires ≡ (tally es).releases
  pub reports : (tally es).dials ≡ (tally es).reports
  pub dials : (tally es).dials ≤ (tally es).creates
  pub in_order : after es (row_closed none) ≡ some (row_closed none)

serve_user-IsAccounted : (w : World) (u : User) (r : Request) → IsAccounted (serve_user w u r)
unfolding serve_user
serve_user-IsAccounted w u r =
    let capture = u.capture && not w.sheds_capture in
    let s = follow-IsSettled w capture u r (resolve w.select w.match capture u r) (
      resolve-OnRefusal (IsSettled none) capture u r
        (λ row status reason f. deny-IsSettled none capture row status reason) w.select w.match) in
    ground
      (arith, s.creates, s.finals, s.charges, s.answers, s.slots, s.reports, s.dials, s.in_order)

serve_lookup-IsAccounted :
    (w : World) (l : UserLookup) (r : Request) → IsAccounted (serve_lookup w l r)
unfolding serve_lookup serve_found
serve_lookup-IsAccounted w (found u) r =
    if-elim IsAccounted r.is_websocket _ _ (ground arith)
      (if-elim IsAccounted (not r.body_read) _ _ (ground arith) (serve_user-IsAccounted w u r))
serve_lookup-IsAccounted w not_found r = ground arith
serve_lookup-IsAccounted w lookup_failed r = ground arith

-- Whatever a request is and whatever the other parts answer, it is answered exactly once, where a
-- WebSocket handshake counts as answered when it is handed over (what becomes of it then is not
-- modelled); the row that it opens, if any, is charged exactly once, while it is open, and finalized
-- exactly once; a slot that it takes at the gate, with the row open, it gives back afterwards;
-- and of what is not handed over, at most one provider is dialled, once, with the row open and the
-- slot held, and every dial is reported to the router after it.
pub serve-IsAccounted : (w : World) (r : Request) → IsAccounted (serve w r)
unfolding serve
serve-IsAccounted w r =
    if-elim IsAccounted (str_eq r.key "") _ _ (ground arith) (serve_lookup-IsAccounted w w.users r)
