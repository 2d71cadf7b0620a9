-- ===== src/Wire/Longest.antt =====
-- backend/internal/wire/wire.go: the best match among the suffixes of a wire.
use songguo.Prelude.{
  ◌≡◌, ◌⊎◌, refl, sym, subst, true, false, Option, none, some, List, [], ◌∷◌, String, arith,
  Bool-cases, inl, inr,
}
use Prim.Native.String
use songguo.Prelude.Member.{Mem, here, there}
use songguo.Wire.{Wire, Match, beats, take_better, has_suffix, try_suffixes}
use songguo.Wire.Order.{not_beats_self, not_beats_better}

-- Of the matches that satisfy `P`, the best: none of them beats it.
abbrev pub IsBest : (Match → Type 0) → Option Match → Type 0
IsBest P none = (m : Match) → P m → ⊥
IsBest P (some b) = P b × ((m : Match) → P m → beats m b ≡ false)

-- One more match that is tried.
take_better-IsBest :
    (P Q : Match → Type 0) (best : Option Match) (new : Match)
    → ((m : Match) → P m → Q m)
    → ((m : Match) → Q m → P m ⊎ (m ≡ new))
    → Q new
    → IsBest P best
    → IsBest Q (take_better best new)
take_better-IsBest P Q none new keep split q h = (
  q,
  λ m k. elim (split m k) [
    | inl p ↦ absurd (h m p)
    | inr e ↦ subst (λ x. beats x new ≡ false) (sym e) (not_beats_self new)
  ],
)
take_better-IsBest P Q (some b) new keep split q h = elim (Bool-cases (beats new b)) [
  | inl e ↦ rw e (
    q,
    λ m k. elim (split m k) [
      | inl p ↦ not_beats_better m b new (h.1 m p) e
      | inr s ↦ subst (λ x. beats x new ≡ false) (sym s) (not_beats_self new)
    ],
  )
  | inr n ↦ rw n (
    keep b h.0,
    λ m k. elim (split m k) [ inl p ↦ h.1 m p | inr s ↦ subst (λ x. beats x b ≡ false) (sym s) n ],
  )
]

-- The same matches have the same best.
pub same-IsBest :
    (P Q : Match → Type 0) (best : Option Match)
    → ((m : Match) → P m → Q m)
    → ((m : Match) → Q m → P m)
    → IsBest P best
    → IsBest Q best
same-IsBest P Q none f g h = λ m q. h m (g m q)
same-IsBest P Q (some b) f g h = (f b h.0, λ m q. h.1 m (g m q))

-- A suffix of one wire that ends the path.
pub data Ends (p : String) (w : Wire) (sufs : List String) : Match → Type 0 where
  ending :
      (suf : String)
      → Mem suf sufs
      → has_suffix p suf ≡ true
      → Ends p w sufs (record { wire = w; length = String.len suf })

module _ (p : String) (w : Wire) where
  abbrev new : String → Match
  new suf = record { wire = w; length = String.len suf }

  later :
      (suf : String) (sufs : List String) (m : Match) → Ends p w sufs m → Ends p w (suf ∷ sufs) m
  later suf sufs _ (ending s k e) = ending s (there suf sufs k) e

  ends-cases :
      (suf : String) (sufs : List String) (m : Match)
      → Ends p w (suf ∷ sufs) m
      → ((has_suffix p suf ≡ true) × (m ≡ new suf)) ⊎ Ends p w sufs m
  ends-cases suf sufs _ (ending _ (here _) e) = inl (e, refl)
  ends-cases suf sufs _ (ending s (there _ _ k) e) = inr (ending s k e)

  pub try_suffixes-IsBest :
      (P : Match → Type 0) (sufs : List String) (best : Option Match)
      → IsBest P best
      → IsBest (λ m. P m ⊎ Ends p w sufs m) (try_suffixes p w sufs best)
  unfolding try_suffixes
  try_suffixes-IsBest P [] best h = same-IsBest P _ best (λ m k. inl k) only h
    where
      none_left : (m : Match) → Ends p w [] m → ⊥
      none_left _ (ending s k e) = elim k [ ]

      only : (m : Match) → P m ⊎ Ends p w [] m → P m
      only m (inl k) = k
      only m (inr k) = absurd (none_left m k)
  try_suffixes-IsBest P (suf ∷ sufs) best h = elim (Bool-cases (has_suffix p suf)) [
    | inl e ↦ rw e (
        same-IsBest (λ m. (P m ⊎ (m ≡ new suf)) ⊎ Ends p w sufs m) _ _ (joined e) (parted e)
          (try_suffixes-IsBest (λ m. P m ⊎ (m ≡ new suf)) sufs (take_better best (new suf))
            (take_better-IsBest P _ best (new suf) (λ m k. inl k) (λ m k. k) (inr refl) h)))
    | inr n ↦ rw n (
        same-IsBest (λ m. P m ⊎ Ends p w sufs m) _ _ more (fewer n)
          (try_suffixes-IsBest P sufs best h))
  ]
    where
      first : has_suffix p suf ≡ true → Ends p w (suf ∷ sufs) (new suf)
      first e = ending suf (here sufs) e

      joined :
          has_suffix p suf ≡ true
          → (m : Match) → (P m ⊎ (m ≡ new suf)) ⊎ Ends p w sufs m
          → P m ⊎ Ends p w (suf ∷ sufs) m
      joined e m (inl (inl k)) = inl k
      joined e m (inl (inr s)) = inr (subst (Ends p w (suf ∷ sufs)) (sym s) (first e))
      joined e m (inr k) = inr (later suf sufs m k)

      parted :
          has_suffix p suf ≡ true
          → (m : Match) → P m ⊎ Ends p w (suf ∷ sufs) m
          → (P m ⊎ (m ≡ new suf)) ⊎ Ends p w sufs m
      parted e m (inl k) = inl (inl k)
      parted e m (inr k) = elim (ends-cases suf sufs m k) [ inl s ↦ inl (inr s.1) | inr r ↦ inr r ]

      more : (m : Match) → P m ⊎ Ends p w sufs m → P m ⊎ Ends p w (suf ∷ sufs) m
      more m (inl k) = inl k
      more m (inr k) = inr (later suf sufs m k)

      fewer :
          has_suffix p suf ≡ false
          → (m : Match) → P m ⊎ Ends p w (suf ∷ sufs) m
          → P m ⊎ Ends p w sufs m
      fewer n m (inl k) = inl k
      fewer n m (inr k) = elim (ends-cases suf sufs m k) [
        | inl s ↦ absurd (ground (arith, n, s.0))
        | inr r ↦ inr r
      ]
