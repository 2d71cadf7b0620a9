-- ===== src/Proxy/Tally.antt =====
-- backend/internal/proxy/proxy.go: how often a request makes each kind of call.
use songguo.Prelude.{
  ℕ, suc, ◌+◌, ◌≡◌, ap, refl, ◌∙◌, Bool, true, false, List, [], ◌∷◌, ◌++◌, arith, if◌then◌else◌,
}
use songguo.Proxy.{
  Effect, respond, upgrade, create_row, charge, finalize, save_body, save_composition, acquire,
  release, dial, relay, report, pin_session,
}

-- How often each kind of effect occurs; an answer is anything that is written to the client.
pub record Tally : Type 0 where
  pub creates : ℕ
  pub finals : ℕ
  pub charges : ℕ
  pub acquires : ℕ
  pub releases : ℕ
  pub dials : ℕ
  pub reports : ℕ
  pub answers : ℕ

abbrev pub no_tally : Tally
no_tally = record {
  creates = 0;
  finals = 0;
  charges = 0;
  acquires = 0;
  releases = 0;
  dials = 0;
  reports = 0;
  answers = 0;
}

abbrev pub count : Effect → Tally → Tally
count (respond status reason) t = record t { answers = suc t.answers }
count upgrade t = record t { answers = suc t.answers }
count (create_row user) t = record t { creates = suc t.creates }
count (charge user cost) t = record t { charges = suc t.charges }
count (finalize row) t = record t { finals = suc t.finals }
count save_body t = t
count save_composition t = t
count (acquire credential) t = record t { acquires = suc t.acquires }
count (release credential) t = record t { releases = suc t.releases }
count (dial vendor) t = record t { dials = suc t.dials }
count (relay status) t = record t { answers = suc t.answers }
count (report attempt signal) t = record t { reports = suc t.reports }
count (pin_session sel vendor) t = t

abbrev pub tally_onto : List Effect → Tally → Tally
tally_onto [] t = t
tally_onto (e ∷ es) t = count e (tally_onto es t)

abbrev pub tally : List Effect → Tally
tally es = tally_onto es no_tally

abbrev pub plus : Tally → Tally → Tally
plus a b = record {
  creates = a.creates + b.creates;
  finals = a.finals + b.finals;
  charges = a.charges + b.charges;
  acquires = a.acquires + b.acquires;
  releases = a.releases + b.releases;
  dials = a.dials + b.dials;
  reports = a.reports + b.reports;
  answers = a.answers + b.answers;
}

count-plus : (e : Effect) (a b : Tally) → count e (plus a b) ≡ plus (count e a) b
count-plus (respond status reason) a b = ground arith
count-plus upgrade a b = ground arith
count-plus (create_row user) a b = ground arith
count-plus (charge user cost) a b = ground arith
count-plus (finalize row) a b = ground arith
count-plus save_body a b = refl
count-plus save_composition a b = refl
count-plus (acquire credential) a b = ground arith
count-plus (release credential) a b = ground arith
count-plus (dial vendor) a b = ground arith
count-plus (relay status) a b = ground arith
count-plus (report attempt signal) a b = ground arith
count-plus (pin_session sel vendor) a b = refl

pub tally-append : (xs ys : List Effect) → tally (xs ++ ys) ≡ plus (tally xs) (tally ys)
tally-append [] ys = ground arith
tally-append (x ∷ xs) ys = ap (count x) (tally-append xs ys) ∙ count-plus x (tally xs) (tally ys)

-- What holds of both branches holds of the choice.
pub if-elim :
    (P : List Effect → Type 0) (b : Bool) (xs ys : List Effect)
    → P xs
    → P ys
    → P (if b then xs else ys)
if-elim P true xs ys p q = p
if-elim P false xs ys p q = q
