-- ===== src/Proxy/Held.antt =====
-- backend/internal/proxy/proxy.go: what a request holds between its calls: the row that it opened, a
-- slot at the gate, and a dial that the router has not heard about.
use songguo.Prelude.{
  ◌≡◌, Bool, true, false, ◌&&◌, not, Option, none, some, List, [], ◌∷◌, ◌++◌, String, arith,
  if◌then◌else◌, str_eq, eq_iff,
}
use songguo.Proxy.{
  Effect, respond, upgrade, create_row, charge, finalize, save_body, save_composition, acquire,
  release, dial, relay, report, pin_session,
}

-- `row` is whether its row is open, `slot` the credential whose slot it has.
pub record Held : Type 0 where
  pub row : Bool
  pub slot : Option String
  pub owes_report : Bool

abbrev pub row_opened : Option String → Held
row_opened slot = record { row = true; slot = slot; owes_report = false }

abbrev pub row_closed : Option String → Held
row_closed slot = record { row = false; slot = slot; owes_report = false }

abbrev has_slot : Held → Bool
has_slot h = elim h.slot [ none ↦ false | some c ↦ true ]

-- What is held after a call, or `none` where the call comes out of order: a second row, a charge or
-- an end without a row, a slot without a row or a second one, the release of another slot than the
-- one held, a dial without a row or a slot, and a report without a dial.
abbrev pub next_held : Effect → Held → Option Held
next_held (respond status reason) h = some h
next_held upgrade h = some h
next_held (create_row user) h = if h.row then none else some (record h { row = true })
next_held (charge user cost) h = if h.row then some h else none
next_held (finalize row) h = if h.row then some (record h { row = false }) else none
next_held save_body h = some h
next_held save_composition h = some h
next_held (acquire credential) h =
    if h.row && not (has_slot h) then some (record h { slot = some credential }) else none
next_held (release credential) h = elim h.slot [
  | none ↦ none
  | some c ↦ if str_eq c credential then some (record h { slot = none }) else none
]
next_held (dial vendor) h =
    if h.row && has_slot h && not h.owes_report
    then some (record h { owes_report = true })
    else none
next_held (relay status) h = some h
next_held (report attempt signal) h =
    if h.owes_report then some (record h { owes_report = false }) else none
next_held (pin_session sel vendor) h = some h

abbrev pub after : List Effect → Held → Option Held
after [] h = some h
after (e ∷ es) h = elim (next_held e h) [ none ↦ none | some g ↦ after es g ]

-- Where all is in order up to a call, the rest takes over.
then_after :
    (xs ys : List Effect) (g : Held)
    → ((k : Held) → after xs k ≡ some g → after (xs ++ ys) k ≡ after ys g)
    → (m : Option Held) → elim m [ none ↦ none | some k ↦ after xs k ] ≡ some g
    → elim m [ none ↦ none | some k ↦ after (xs ++ ys) k ] ≡ after ys g
then_after xs ys g rest none e = cc
then_after xs ys g rest (some k) e = rest k e

pub after-append :
    (xs ys : List Effect) (h g : Held) → after xs h ≡ some g → after (xs ++ ys) h ≡ after ys g
after-append [] ys h g e = ground (arith, e)
after-append (x ∷ xs) ys h g e = then_after xs ys g (λ k. after-append xs ys k g) (next_held x h) e

-- What a request does with a slot, it does between taking it and giving it back.
pub after-slot :
    (c : String) (es : List Effect)
    → after es (row_opened (some c)) ≡ some (row_closed (some c))
    → after (acquire c ∷ (es ++ release c ∷ [])) (row_opened none) ≡ some (row_closed none)
after-slot c es e = ground (
  arith,
  eq_iff c c,
  after-append es (release c ∷ []) (row_opened (some c)) (row_closed (some c)) e,
)
