-- ===== src/Prelude/Member.antt =====
-- Membership in a list, and lists that grow at their end.
use mathlib.Core.Path.{◌≡◌, refl, ap}
use mathlib.Core.Logic.{◌⊎◌, inl, inr}
use mathlib.Core.List.{List, [], ◌∷◌, ◌++◌}

pub data Mem {ℓ} {A : Type ℓ} (x : A) : List A → Type ℓ where
  here : (xs : List A) → Mem x (x ∷ xs)
  there : (y : A) (xs : List A) → Mem x xs → Mem x (y ∷ xs)

module _ {ℓ} {A : Type ℓ} where
  pub Mem-left : (x : A) (xs ys : List A) → Mem x xs → Mem x (xs ++ ys)
  Mem-left x _ ys (here xs) = here (xs ++ ys)
  Mem-left x _ ys (there y xs m) = there y (xs ++ ys) (Mem-left x xs ys m)

  pub Mem-right : (x : A) (xs ys : List A) → Mem x ys → Mem x (xs ++ ys)
  Mem-right x [] ys m = m
  Mem-right x (y ∷ xs) ys m = there y (xs ++ ys) (Mem-right x xs ys m)

  pub Mem-cases : (x : A) (xs ys : List A) → Mem x (xs ++ ys) → Mem x xs ⊎ Mem x ys
  Mem-cases x [] ys m = inr m
  Mem-cases x (_ ∷ xs) ys (here _) = inl (here xs)
  Mem-cases x (y ∷ xs) ys (there _ _ m) = elim (Mem-cases x xs ys m) [
    | inl k ↦ inl (there y xs k)
    | inr k ↦ inr k
  ]

  pub Mem-swap : (z x y : A) (ys : List A) → Mem z (x ∷ y ∷ ys) → Mem z (y ∷ x ∷ ys)
  Mem-swap _ x y ys (here _) = there y (x ∷ ys) (here ys)
  Mem-swap _ x y ys (there _ _ (here _)) = here (x ∷ ys)
  Mem-swap z x y ys (there _ _ (there _ _ k)) = there y (x ∷ ys) (there x ys k)

  pub Mem-cons :
      (z x : A) (xs ys : List A) → (Mem z xs → Mem z ys) → Mem z (x ∷ xs) → Mem z (x ∷ ys)
  Mem-cons _ x xs ys f (here _) = here ys
  Mem-cons z x xs ys f (there _ _ k) = there x ys (f k)

  pub Mem-last : (x : A) (xs : List A) → Mem x (xs ++ x ∷ [])
  Mem-last x [] = here []
  Mem-last x (y ∷ xs) = there y (xs ++ x ∷ []) (Mem-last x xs)

  -- What holds of the entries of a list and of one more holds of all of them.
  pub snoc-elim {κ} :
      (P : A → Type κ) (xs : List A) (y : A)
      → ((x : A) → Mem x xs → P x)
      → P y
      → (x : A) → Mem x (xs ++ y ∷ [])
      → P x
  snoc-elim P [] y h p x (here _) = p
  snoc-elim P [] y h p x (there _ _ m) = absurd (elim m [ ])
  snoc-elim P (z ∷ xs) y h p x (here _) = h x (here xs)
  snoc-elim P (z ∷ xs) y h p x (there _ _ m) = snoc-elim P xs y (λ w n. h w (there z xs n)) p x m

  pub append_nil : (xs : List A) → xs ++ [] ≡ xs
  append_nil [] = refl
  append_nil (x ∷ xs) = ap (λ l. x ∷ l) (append_nil xs)

  pub append_assoc : (xs ys zs : List A) → (xs ++ ys) ++ zs ≡ xs ++ (ys ++ zs)
  append_assoc [] ys zs = refl
  append_assoc (x ∷ xs) ys zs = ap (λ l. x ∷ l) (append_assoc xs ys zs)
