-- ===== src/Prelude/Map.antt =====
-- Go's maps with text keys, as association lists; the order of the list stands for the order in
-- which `range` happens to visit the map.
use Prim.Native.Nat.{suc, ◌≤◌, ◌<◌}
use Prim.Native.String.{String}
use mathlib.Core.Path.{◌≡◌, refl}
use mathlib.Core.Bool.{Bool, true, false}
use mathlib.Core.Option.{Option, none, some}
use mathlib.Core.List.{List, [], ◌∷◌}
use native.Mathlib.Omega.{arith}
use text.Mathlib.Text.{◌==◌}
use text.Mathlib.TextEquality.{eq_iff}
use songguo.Prelude.Tests.{if◌then◌else◌}
use songguo.Prelude.Lists.{length}

abbrev pub Map {ℓ} : Type ℓ → Type ℓ
Map V = List (String × V)

module _ {ℓ} {V : Type ℓ} where
  -- `v, ok := m[key]`
  unfoldable pub lookup : String → Map V → Option V
  lookup key ((k, v) ∷ rest) = if k == key then some v else lookup key rest
  lookup key [] = none

  -- `m[key] = v`
  unfoldable pub insert : String → V → Map V → Map V
  insert key v ((k, old) ∷ rest) = if k == key then (k, v) ∷ rest else (k, old) ∷ insert key v rest
  insert key v [] = (key, v) ∷ []

  -- `delete(m, k)`
  unfoldable pub erase : String → Map V → Map V
  erase k [] = []
  erase k ((j, w) ∷ m) = if j == k then erase k m else (j, w) ∷ erase k m

  -- `m[k]`, with the zero value of the type on a missing key.
  unfoldable pub get_or : String → V → Map V → V
  unfolding lookup
  get_or k d m = elim (lookup k m) [ none ↦ d | some v ↦ v ]

  pub lookup-insert :
      (key other : String) (v : V) (m : Map V)
      → lookup other (insert key v m) ≡ (if key == other then some v else lookup other m)
  unfolding lookup insert
  lookup-insert key other v ((k, old) ∷ rest) =
      let ih = lookup-insert key other v rest in
      ground (arith, eq_iff k key, eq_iff k other, eq_iff key other, ih)
  lookup-insert key other v [] = refl

  pub lookup-erase :
      (k j : String) (m : Map V) → lookup j (erase k m) ≡ (if k == j then none else lookup j m)
  unfolding lookup erase
  lookup-erase k j [] = ground arith
  lookup-erase k j ((i, w) ∷ m) =
      ground (arith, eq_iff k j, eq_iff i k, eq_iff i j, lookup-erase k j m)

  pub get_or-insert :
      (k j : String) (v d : V) (m : Map V)
      → get_or j d (insert k v m) ≡ (if k == j then v else get_or j d m)
  unfolding get_or
  get_or-insert k j v d m = ground (arith, lookup-insert k j v m)

  pub get_or-erase :
      (k j : String) (d : V) (m : Map V)
      → get_or j d (erase k m) ≡ (if k == j then d else get_or j d m)
  unfolding get_or
  get_or-erase k j d m = ground (arith, lookup-erase k j m)

  pub length-insert-le : (k : String) (v : V) (m : Map V) → length (insert k v m) ≤ suc (length m)
  unfolding insert
  length-insert-le k v [] = omega arith
  length-insert-le k v ((i, w) ∷ m) = ground (arith, length-insert-le k v m)

  pub length-erase-le : (k : String) (m : Map V) → length (erase k m) ≤ length m
  unfolding erase
  length-erase-le k [] = omega arith
  length-erase-le k ((i, w) ∷ m) = ground (arith, length-erase-le k m)

module _ {ℓ} {V : Type ℓ} where
  -- `for k, v := range m { if !p(v) { delete(m, k) } }`
  unfoldable pub keep_values : (V → Bool) → Map V → Map V
  keep_values p [] = []
  keep_values p ((j, w) ∷ m) = if p w then (j, w) ∷ keep_values p m else keep_values p m

  abbrev pub is_missing : String → Map V → Bool
  is_missing k [] = true
  is_missing k ((j, w) ∷ m) = if j == k then false else is_missing k m

  -- No key stands twice, as in every map of the program.
  abbrev pub IsUnique : Map V → Type 0
  IsUnique [] = Unit {0}
  IsUnique ((j, w) ∷ m) = (is_missing j m ≡ true) × IsUnique m

  pub lookup-is_missing : (k : String) (m : Map V) → is_missing k m ≡ true → lookup k m ≡ none
  unfolding lookup
  lookup-is_missing k [] h = refl
  lookup-is_missing k ((j, w) ∷ m) h = ground (arith, lookup-is_missing k m)

  is_missing-insert :
      (k j : String) (v : V) (m : Map V)
      → k == j ≡ false
      → is_missing j m ≡ true
      → is_missing j (insert k v m) ≡ true
  unfolding insert
  is_missing-insert k j v [] n h = ground arith
  is_missing-insert k j v ((i, w) ∷ m) n h = ground (arith, is_missing-insert k j v m n)

  pub insert-IsUnique : (k : String) (v : V) (m : Map V) → IsUnique m → IsUnique (insert k v m)
  unfolding insert
  insert-IsUnique k v [] u = (refl, tt)
  insert-IsUnique k v ((i, w) ∷ m) u =
      ground (arith, eq_iff i k, eq_iff k i, insert-IsUnique k v m u.1, is_missing-insert k i v m)

  is_missing-erase :
      (k j : String) (m : Map V) → is_missing j m ≡ true → is_missing j (erase k m) ≡ true
  unfolding erase
  is_missing-erase k j [] h = refl
  is_missing-erase k j ((i, w) ∷ m) h = ground (arith, is_missing-erase k j m)

  pub erase-IsUnique : (k : String) (m : Map V) → IsUnique m → IsUnique (erase k m)
  unfolding erase
  erase-IsUnique k [] u = tt
  erase-IsUnique k ((i, w) ∷ m) u = ground (arith, erase-IsUnique k m u.1, is_missing-erase k i m)

  is_missing-keep_values :
      (p : V → Bool) (j : String) (m : Map V)
      → is_missing j m ≡ true
      → is_missing j (keep_values p m) ≡ true
  unfolding keep_values
  is_missing-keep_values p j [] h = refl
  is_missing-keep_values p j ((i, w) ∷ m) h = ground (arith, is_missing-keep_values p j m)

  pub keep_values-IsUnique : (p : V → Bool) (m : Map V) → IsUnique m → IsUnique (keep_values p m)
  unfolding keep_values
  keep_values-IsUnique p [] u = tt
  keep_values-IsUnique p ((i, w) ∷ m) u =
      ground (arith, keep_values-IsUnique p m u.1, is_missing-keep_values p i m)

  pub lookup-keep_values :
      (p : V → Bool) (k : String) (m : Map V)
      → IsUnique m
      → lookup k (keep_values p m)
        ≡ elim (lookup k m) [ none ↦ none | some v ↦ if p v then some v else none ]
  unfolding lookup keep_values
  lookup-keep_values p k [] u = refl
  lookup-keep_values p k ((i, w) ∷ m) u = ground (
    arith,
    eq_iff i k,
    lookup-keep_values p k m u.1,
    lookup-is_missing i m u.0,
    lookup-is_missing i (keep_values p m) (is_missing-keep_values p i m u.0),
  )

  pub length-keep_values-le : (p : V → Bool) (m : Map V) → length (keep_values p m) ≤ length m
  unfolding keep_values
  length-keep_values-le p [] = omega arith
  length-keep_values-le p ((i, w) ∷ m) = ground (arith, length-keep_values-le p m)

  pub length-erase-lt :
      (k : String) (m : Map V) → is_missing k m ≡ false → length (erase k m) < length m
  unfolding erase
  length-erase-lt k [] h = ground arith
  length-erase-lt k ((i, w) ∷ m) h = ground (arith, length-erase-lt k m, length-erase-le k m)
