-- ===== src/Config/Validate/Names.antt =====
-- backend/internal/config/config.go: that an accepted configuration names each vendor once.
use songguo.Prelude.{
  ℕ, ◌+◌, ◌≡◌, refl, false, some, List, [], ◌∷◌, ◌++◌, String, arith, str_eq, eq_iff, All, subst,
}
use songguo.Prelude.Member.{Mem}
use songguo.Config.{Vendor}
use songguo.Config.Snapshot.{normalize, vendor, new_snapshot, Snapshot}
use songguo.Config.Snapshot.Names.{IsDistinct, vendor-Mem, IsDistinct-normalize}
use songguo.Config.Validate.{
  Urls, Problem, contains, seen_after, validate_name, validate_vendor, validate_from, validate,
  accepted, built, build,
}

pub append-nil-parts : (xs ys : List Problem) → xs ++ ys ≡ [] → (xs ≡ []) × (ys ≡ [])
append-nil-parts [] ys e = (refl, e)
append-nil-parts (x ∷ xs) ys e = cc e

-- None of the names was seen before.
abbrev pub AreNew : List String → List Vendor → Type 0
AreNew seen vs = All (λ v. contains v.name seen ≡ false) vs

pub AreNew-drop :
    (name : String) (seen : List String) (vs : List Vendor)
    → AreNew (name ∷ seen) vs
    → AreNew seen vs × All (λ w. str_eq name w.name ≡ false) vs
AreNew-drop name seen [] h = (tt, tt)
AreNew-drop name seen (w ∷ vs) h =
    let k = AreNew-drop name seen vs h.1 in
    ((ground (arith, h.0), k.0), (ground (arith, h.0, eq_iff name w.name, eq_iff w.name name), k.1))

-- A name in which no problem is found was not seen, and is seen afterwards.
new_name :
    (i : ℕ) (seen : List String) (name : String)
    → validate_name i seen name ≡ []
    → (contains name seen ≡ false) × (seen_after seen name ≡ name ∷ seen)
new_name i seen name e = ground (arith, e)

validate_from-IsDistinct :
    (urls : Urls) (i : ℕ) (seen : List String) (vs : List Vendor)
    → validate_from urls i seen vs ≡ []
    → AreNew seen vs × IsDistinct vs
unfolding validate_from
validate_from-IsDistinct urls i seen [] e = (tt, tt)
validate_from-IsDistinct urls i seen (v ∷ vs) e =
    let p = append-nil-parts (validate_name i seen v.name) _ e in
    let q = append-nil-parts (validate_vendor urls v) _ p.1 in
    let n = new_name i seen v.name p.0 in
    let k = validate_from-IsDistinct urls (i + 1) (seen_after seen v.name) vs q.1 in
    let d = AreNew-drop v.name seen vs (rw n.1 at (k.0)) in ((n.0, d.0), (d.1, k.1))

pub accepted-built :
    (vs : List Vendor) (ps : List Problem) (s : Snapshot)
    → accepted vs ps ≡ built s
    → (ps ≡ []) × (new_snapshot vs ≡ s)
accepted-built vs [] s e = (refl, cc e)
accepted-built vs (p ∷ ps) s e = cc e

-- In an accepted configuration every vendor is found by its own name, as it was given but for the
-- defaults: no vendor hides another.
pub build-vendor :
    (urls : Urls) (vs : List Vendor) (s : Snapshot) (v : Vendor)
    → build urls vs ≡ built s
    → Mem v (normalize vs)
    → vendor s v.name ≡ some v
unfolding build
build-vendor urls vs s v e m =
    let a = accepted-built (normalize vs) (validate urls (normalize vs)) s e in
    let d = validate_from-IsDistinct urls 0 [] (normalize vs) a.0 in
    subst (λ x. vendor x v.name ≡ some v) a.1 (vendor-Mem (normalize vs) v d.1 m)

-- The names of an accepted configuration differ.
pub build-IsDistinct :
    (urls : Urls) (vs : List Vendor) (s : Snapshot) → build urls vs ≡ built s → IsDistinct vs
unfolding build
build-IsDistinct urls vs s e =
    let a = accepted-built (normalize vs) (validate urls (normalize vs)) s e in
    IsDistinct-normalize vs (validate_from-IsDistinct urls 0 [] (normalize vs) a.0).1
