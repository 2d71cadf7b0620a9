-- ===== src/Manager/Groups/Names.antt =====
-- backend/internal/configsvc/manager.go: that the loop over names ends with one that is free.
use songguo.Prelude.{
  ℕ, suc, ◌+◌, ◌≤◌, ◌<◌, ◌≡◌, ◌∙◌, refl, sym, true, false, not, Option, List, [], ◌∷◌, String,
  arith, inl, inr, str_eq, eq_iff, length, keep, length-keep-le, Bool-cases,
}
use songguo.Prelude.Map.{Map}
use songguo.Config.{Proxy, Price}
use songguo.Config.Validate.{contains}
use songguo.Config.Validate.Names.{AreNew, AreNew-drop}
use songguo.Config.Snapshot.Names.{IsDistinct}
use songguo.Manager.{Provider}
use songguo.Manager.Groups.{
  Group, free_name, stem_of, group_name, vendor_of_group, vendors_of_groups,
}

abbrev others : String → List String → List String
others name = keep (λ y. not (str_eq name y))

contains-others :
    (name x : String) (rest : List String)
    → str_eq name x ≡ false
    → contains x (others name rest) ≡ contains x rest
contains-others name x [] n = refl
contains-others name x (y ∷ rest) n =
    ground (arith, n, eq_iff name y, eq_iff x y, eq_iff name x, contains-others name x rest n)

length-others-lt :
    (name : String) (rest : List String)
    → contains name rest ≡ true
    → length (others name rest) < length rest
length-others-lt name [] h = cc h
length-others-lt name (y ∷ rest) h = elim (Bool-cases (str_eq name y)) [
  | inl e ↦ rw e (omega (arith, length-keep-le (λ z. not (str_eq name z)) rest))
  | inr n ↦ rw n (omega (arith, length-others-lt name rest (rw n at h)))
]

-- What `fmt.Sprintf("%s-%d")` does: it lengthens the text, and different numbers read differently.
pub record IsNumbering (numbered : String → ℕ → String) : Type 0 where
  pub longer : (stem : String) (n : ℕ) → str_eq stem (numbered stem n) ≡ false
  pub distinct :
      (stem : String) (i j : ℕ) → i < j → str_eq (numbered stem i) (numbered stem j) ≡ false

module _ (numbered : String → ℕ → String) (h : IsNumbering numbered) where
  -- The fuel exceeds the names in use that the loop may still meet.
  free_name-new :
      (stem : String) (used : List String) (fuel n : ℕ) (name : String) (rest : List String)
      → length rest < fuel
      → contains name used ≡ contains name rest
      → ((m : ℕ) → n ≤ m → contains (numbered stem m) used ≡ contains (numbered stem m) rest)
      → ((m : ℕ) → n ≤ m → str_eq name (numbered stem m) ≡ false)
      → contains (free_name numbered stem used fuel n name) used ≡ false
  unfolding free_name
  free_name-new stem used ℕ.zero n name rest l a b c = absurd (omega (arith, l))
  free_name-new stem used (suc fuel) n name rest l a b c = elim (Bool-cases (contains name used)) [
    | inr k ↦ rw k k
    | inl k ↦
        let agree : (m : ℕ)
            → n ≤ m
            → contains (numbered stem m) used ≡ contains (numbered stem m) (others name rest) =
          λ m p. b m p ∙ sym (contains-others name (numbered stem m) rest (c m p)) in
        rw k (
          free_name-new stem used fuel (n + 1) (numbered stem n) (others name rest)
            (omega (arith, l, length-others-lt name rest (sym a ∙ k))) (agree n (omega arith))
            (λ m p. agree m (omega (arith, p))) (λ m p. h.distinct stem n m (omega (arith, p))))
  ]

  group_name-new :
      (provider : String) (used : List String) (adapter : String)
      → contains (group_name numbered provider used adapter) used ≡ false
  unfolding group_name
  group_name-new provider [] adapter = refl
  group_name-new provider (x ∷ used) adapter =
      let stem = stem_of provider adapter in
      free_name-new stem (x ∷ used) (suc (length (x ∷ used))) 2 stem (x ∷ used) (omega arith) refl
        (λ m p. refl) (λ m p. h.longer stem m)

  vendors_of_groups-new :
      (pvd : Provider) (proxy : Option Proxy) (prices : Map Price) (used : List String)
      (gs : List Group)
      → AreNew used (vendors_of_groups numbered pvd proxy prices used gs)
        × IsDistinct (vendors_of_groups numbered pvd proxy prices used gs)
  unfolding vendors_of_groups vendor_of_group
  vendors_of_groups-new pvd proxy prices used [] = (tt, tt)
  vendors_of_groups-new pvd proxy prices used (g ∷ gs) =
      let name = group_name numbered pvd.name used g.adapter in
      let k = vendors_of_groups-new pvd proxy prices (name ∷ used) gs in
      let d =
        AreNew-drop name used (vendors_of_groups numbered pvd proxy prices (name ∷ used) gs) k.0 in
      ((group_name-new pvd.name used g.adapter, d.0), (d.1, k.1))

-- The vendors of one provider have different names: the search for a free one ends within its fuel.
pub vendors_of_groups-IsDistinct :
    (numbered : String → ℕ → String) (pvd : Provider) (proxy : Option Proxy) (prices : Map Price)
    (gs : List Group)
    → IsNumbering numbered
    → IsDistinct (vendors_of_groups numbered pvd proxy prices [] gs)
vendors_of_groups-IsDistinct numbered pvd proxy prices gs h =
    (vendors_of_groups-new numbered h pvd proxy prices [] gs).1
