-- ===== src/Config/Snapshot/Names.antt =====
-- backend/internal/config/snapshot.go: `Vendor`, where no two vendors share a name.
use songguo.Prelude.{
  ℕ, suc, ◌+◌, ◌≡◌, ◌∙◌, refl, ap, false, some, List, [], ◌∷◌, ◌++◌, String, arith, str_eq, eq_iff,
  All,
}
use songguo.Prelude.Map.{Map, lookup, insert, lookup-insert}
use songguo.Prelude.Member.{Mem, here, there, Mem-right}
use songguo.Config.{Vendor}
use songguo.Config.Snapshot.{
  index_models, index_vendors, new_snapshot, nth, vendor, normalize, normalize_vendor,
}

-- Every name differs from those after it.
abbrev pub IsDistinct : List Vendor → Type 0
IsDistinct [] = Unit
IsDistinct (v ∷ vs) = All (λ w. str_eq v.name w.name ≡ false) vs × IsDistinct vs

-- A name that no vendor of the list has keeps its entry.
lookup-index_vendors :
    (i : ℕ) (vs : List Vendor) (names : Map ℕ) (models : Map (List Vendor)) (x : String)
    → All (λ w. str_eq x w.name ≡ false) vs
    → lookup x (index_vendors i vs names models).0 ≡ lookup x names
unfolding index_vendors
lookup-index_vendors i [] names models x h = refl
lookup-index_vendors i (v ∷ vs) names models x h =
    lookup-index_vendors (i + 1) vs (insert v.name i names) (index_models v v.served_models models)
      x h.1
    ∙ ground (arith, h.0, eq_iff v.name x, eq_iff x v.name, lookup-insert v.name x i names)

-- The place of a vendor in the list.
record Place (v : Vendor) (vs : List Vendor) : Type 0 where
  index : ℕ
  found : nth index vs ≡ some v

place : (v : Vendor) (vs : List Vendor) → Mem v vs → Place v vs
unfolding nth
place _ _ (here vs) = record { index = 0; found = refl }
place v _ (there w vs m) = let p = place v vs m in record { index = suc p.index; found = p.found }

All-Mem :
    (x : String) (v : Vendor) (vs : List Vendor)
    → All (λ w. str_eq x w.name ≡ false) vs
    → Mem v vs
    → str_eq x v.name ≡ false
All-Mem x v _ h (here vs) = h.0
All-Mem x v _ h (there w vs m) = All-Mem x v vs h.1 m

index_vendors-place :
    (v : Vendor) (i : ℕ) (vs : List Vendor) (names : Map ℕ) (models : Map (List Vendor))
    → IsDistinct vs
    → (m : Mem v vs)
    → lookup v.name (index_vendors i vs names models).0 ≡ some (i + (place v vs m).index)
unfolding index_vendors place
index_vendors-place v i _ names models d (here vs) =
    lookup-index_vendors (i + 1) vs (insert v.name i names) (index_models v v.served_models models)
      v.name d.0
    ∙ ground (arith, eq_iff v.name v.name, lookup-insert v.name v.name i names)
index_vendors-place v i _ names models d (there w vs m) =
    index_vendors-place v (i + 1) vs (insert w.name i names) (index_models w w.served_models models)
      d.1 m
    ∙ ap some (omega arith)

-- A vendor is found by its name.
pub vendor-Mem :
    (vs : List Vendor) (v : Vendor)
    → IsDistinct vs
    → Mem v vs
    → vendor (new_snapshot vs) v.name ≡ some v
unfolding vendor new_snapshot
vendor-Mem vs v d m =
    let p = place v vs m in
    let e = index_vendors-place v 0 vs [] [] d m ∙ ap some (omega arith) in rw (e, vendor) p.found

All-normalize :
    (x : String) (vs : List Vendor)
    → All (λ w. str_eq x w.name ≡ false) (normalize vs)
    → All (λ w. str_eq x w.name ≡ false) vs
unfolding normalize normalize_vendor
All-normalize x [] h = tt
All-normalize x (v ∷ vs) h = (h.0, All-normalize x vs h.1)

-- The defaults leave the names alone.
pub IsDistinct-normalize : (vs : List Vendor) → IsDistinct (normalize vs) → IsDistinct vs
unfolding normalize normalize_vendor
IsDistinct-normalize [] h = tt
IsDistinct-normalize (v ∷ vs) h = (All-normalize v.name vs h.0, IsDistinct-normalize vs h.1)

-- Lists side by side that share a name.
pub IsDistinct-append :
    (v w : Vendor) (vs ws : List Vendor)
    → IsDistinct (vs ++ ws)
    → Mem v vs
    → Mem w ws
    → str_eq v.name w.name ≡ false
IsDistinct-append v w _ ws h (here vs) n = All-Mem v.name w (vs ++ ws) h.0 (Mem-right w vs ws n)
IsDistinct-append v w _ ws h (there x vs m) n = IsDistinct-append v w vs ws h.1 m n

pub IsDistinct-right : (vs ws : List Vendor) → IsDistinct (vs ++ ws) → IsDistinct ws
IsDistinct-right [] ws h = h
IsDistinct-right (v ∷ vs) ws h = IsDistinct-right vs ws h.1
