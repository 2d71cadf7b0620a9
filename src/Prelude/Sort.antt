-- ===== src/Prelude/Sort.antt =====
-- Go's `sort` package on a strict comparison: insertion from the right, which is stable.
use mathlib.Core.List.{List, [], ◌∷◌, Perm}
use mathlib.Core.List.Perm
use Prim.Native.Nat.{suc}
use mathlib.Core.Path.{◌≡◌, refl}
use mathlib.Core.Bool.{Bool, true, false}
use mathlib.Core.Logic.{inl, inr}
use native.Mathlib.Omega.{arith}
use songguo.Prelude.Tests.{if◌then◌else◌, Bool-cases}
use songguo.Prelude.Lists.{All, length}
use songguo.Prelude.Member.{Mem, Mem-swap, Mem-cons}

module _ {ℓ} {A : Type ℓ} (less : A → A → Bool) where
  unfoldable pub insert_by : A → List A → List A
  insert_by x [] = x ∷ []
  insert_by x (y ∷ ys) = if less y x then y ∷ insert_by x ys else x ∷ y ∷ ys

  unfoldable pub sort_by : List A → List A
  unfolding insert_by
  sort_by [] = []
  sort_by (x ∷ xs) = insert_by x (sort_by xs)

  insert_by-perm : (x : A) (ys : List A) → Perm (insert_by x ys) (x ∷ ys)
  unfolding insert_by
  insert_by-perm x [] = Perm.refl (x ∷ [])
  insert_by-perm x (y ∷ ys) = elim (Bool-cases (less y x)) [
    | inl e ↦ rw e (Perm.trans (Perm.cons y (insert_by-perm x ys)) (Perm.swap x y ys))
    | inr e ↦ rw e (Perm.refl (x ∷ y ∷ ys))
  ]

  pub sort_by-perm : (xs : List A) → Perm (sort_by xs) xs
  unfolding sort_by
  sort_by-perm [] = Perm.refl []
  sort_by-perm (x ∷ xs) = Perm.trans (insert_by-perm x (sort_by xs)) (Perm.cons x (sort_by-perm xs))

  Mem-insert_by : (z x : A) (ys : List A) → Mem z (x ∷ ys) → Mem z (insert_by x ys)
  unfolding insert_by
  Mem-insert_by z x [] m = m
  Mem-insert_by z x (y ∷ ys) m = elim (Bool-cases (less y x)) [
    | inr e ↦ rw e m
    | inl e ↦
        rw e (Mem-cons z y (x ∷ ys) (insert_by x ys) (Mem-insert_by z x ys) (Mem-swap z x y ys m))
  ]

  Mem-of_insert_by : (z x : A) (ys : List A) → Mem z (insert_by x ys) → Mem z (x ∷ ys)
  unfolding insert_by
  Mem-of_insert_by z x [] m = m
  Mem-of_insert_by z x (y ∷ ys) m = elim (Bool-cases (less y x)) [
    | inr e ↦ rw e at m
    | inl e ↦
        Mem-swap z y x ys
          (Mem-cons z y (insert_by x ys) (x ∷ ys) (Mem-of_insert_by z x ys) (rw e at m))
  ]

  -- Sorting keeps the entries.
  pub Mem-sort_by : (z : A) (xs : List A) → Mem z xs → Mem z (sort_by xs)
  unfolding sort_by
  Mem-sort_by z [] m = m
  Mem-sort_by z (x ∷ xs) m =
      Mem-insert_by z x (sort_by xs) (Mem-cons z x xs (sort_by xs) (Mem-sort_by z xs) m)

  pub Mem-of_sort_by : (z : A) (xs : List A) → Mem z (sort_by xs) → Mem z xs
  unfolding sort_by
  Mem-of_sort_by z [] m = m
  Mem-of_sort_by z (x ∷ xs) m =
      Mem-cons z x (sort_by xs) xs (Mem-of_sort_by z xs) (Mem-of_insert_by z x (sort_by xs) m)

  -- No later entry is less than an earlier one.
  abbrev pub IsSorted : List A → Type ℓ
  IsSorted [] = Unit
  IsSorted (x ∷ xs) = All (λ y. less y x ≡ false) xs × IsSorted xs

  pub All-insert_by {κ} :
      (P : A → Type κ) (x : A) (ys : List A) → P x → All P ys → All P (insert_by x ys)
  unfolding insert_by
  All-insert_by P x [] p h = (p, tt)
  All-insert_by P x (y ∷ ys) p h = elim (Bool-cases (less y x)) [
    | inl e ↦ rw e (h.0, All-insert_by P x ys p h.1)
    | inr e ↦ rw e (p, h)
  ]

  pub All-sort_by {κ} : (P : A → Type κ) (xs : List A) → All P xs → All P (sort_by xs)
  unfolding sort_by
  All-sort_by P [] h = tt
  All-sort_by P (x ∷ xs) h = All-insert_by P x (sort_by xs) h.0 (All-sort_by P xs h.1)

  All-of-insert_by {κ} :
      (P : A → Type κ) (x : A) (ys : List A) → All P (insert_by x ys) → P x × All P ys
  unfolding insert_by
  All-of-insert_by P x [] h = h
  All-of-insert_by P x (y ∷ ys) h = elim (Bool-cases (less y x)) [
    | inl e ↦ let k = rw e at h in let (p, q) = All-of-insert_by P x ys k.1 in (p, (k.0, q))
    | inr e ↦ let k = rw e at h in (k.0, k.1)
  ]

  pub All-of-sort_by {κ} : (P : A → Type κ) (xs : List A) → All P (sort_by xs) → All P xs
  unfolding sort_by
  All-of-sort_by P [] h = tt
  All-of-sort_by P (x ∷ xs) h =
      let (p, q) = All-of-insert_by P x (sort_by xs) h in (p, All-of-sort_by P xs q)

  length-insert_by : (x : A) (ys : List A) → length (insert_by x ys) ≡ suc (length ys)
  unfolding insert_by
  length-insert_by x [] = refl
  length-insert_by x (y ∷ ys) = ground (arith, length-insert_by x ys)

  pub length-sort_by : (xs : List A) → length (sort_by xs) ≡ length xs
  unfolding sort_by
  length-sort_by [] = refl
  length-sort_by (x ∷ xs) = omega (arith, length-insert_by x (sort_by xs), length-sort_by xs)

  module _ (asym : (a b : A) → less a b ≡ true → less b a ≡ false)
      (ge_trans : (a b c : A) → less b a ≡ false → less c b ≡ false → less c a ≡ false) where
    ge-All :
        (x y : A) (ys : List A)
        → less y x ≡ false
        → All (λ z. less z y ≡ false) ys
        → All (λ z. less z x ≡ false) ys
    ge-All x y [] e h = tt
    ge-All x y (z ∷ zs) e h = (ge_trans x y z e h.0, ge-All x y zs e h.1)

    insert_by-IsSorted : (x : A) (ys : List A) → IsSorted ys → IsSorted (insert_by x ys)
    unfolding insert_by
    insert_by-IsSorted x [] h = (tt, tt)
    insert_by-IsSorted x (y ∷ ys) h = elim (Bool-cases (less y x)) [
      | inl e ↦
          rw e (
            All-insert_by (λ z. less z y ≡ false) x ys (asym y x e) h.0,
            insert_by-IsSorted x ys h.1,
          )
      | inr e ↦ rw e ((e, ge-All x y ys e h.0), h)
    ]

    pub sort_by-IsSorted : (xs : List A) → IsSorted (sort_by xs)
    unfolding sort_by
    sort_by-IsSorted [] = tt
    sort_by-IsSorted (x ∷ xs) = insert_by-IsSorted x (sort_by xs) (sort_by-IsSorted xs)
