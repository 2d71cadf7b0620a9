-- ===== src/Catalog/Brackets.antt =====
-- backend/internal/catalog/catalog.go: which tier prices a request, and what resolving leaves.
use songguo.Prelude.{
  ℕ, ◌+◌, ◌≡◌, refl, sym, ap, true, false, Option, none, some, List, [], ◌∷◌, ◌++◌, arith,
  Bool-cases, inl, inr, subst,
}
use songguo.Prelude.Member.{Mem, Mem-left, Mem-last, snoc-elim, append_nil, append_assoc}
use songguo.Prelude.Int.{ℤ, leb_ℤ, ltb_ℤ}
use songguo.Catalog.{Cost, CostTier, CostSchedule, Window}
use songguo.Catalog.Clock.{week}
use songguo.Catalog.Windows.{contains-week}
use songguo.Catalog.Rates.{
  is_crossed, better, best_tier, at_tier, at_schedule, first_schedule, any_contains, resolve,
  over_tier, over_schedule,
}

-- Of some tiers, the one that prices a request: it is crossed, and no crossed one is larger; or there
-- is none, and none is crossed.
abbrev pub IsBest : ℤ → List CostTier → Option CostTier → Type 0
IsBest tokens ts none = (t : CostTier) → Mem t ts → is_crossed tokens t ≡ false
IsBest tokens ts (some b) =
    Mem b ts
    × (is_crossed tokens b ≡ true)
    × ((t : CostTier)
        → Mem t ts
        → is_crossed tokens t ≡ true
        → leb_ℤ t.tier.size b.tier.size ≡ true)

-- What the loop knows after the tiers `ts` it knows after one more.
module _ (tokens : ℤ) (ts : List CostTier) (t : CostTier) where
  first-IsBest :
      IsBest tokens ts none → is_crossed tokens t ≡ true → IsBest tokens (ts ++ t ∷ []) (some t)
  first-IsBest h e = (
    Mem-last t ts,
    e,
    snoc-elim (λ x. is_crossed tokens x ≡ true → leb_ℤ x.tier.size t.tier.size ≡ true) ts t
        (λ x m k. absurd (ground (arith, h x m, k))) (λ k. ground arith),
  )

  larger-IsBest :
      (b : CostTier)
      → IsBest tokens ts (some b)
      → is_crossed tokens t ≡ true
      → ltb_ℤ b.tier.size t.tier.size ≡ true
      → IsBest tokens (ts ++ t ∷ []) (some t)
  larger-IsBest b h e l = (
    Mem-last t ts,
    e,
    snoc-elim (λ x. is_crossed tokens x ≡ true → leb_ℤ x.tier.size t.tier.size ≡ true) ts t
        (λ x m k. let below = h.2 x m k in ground (arith, below, l)) (λ k. ground arith),
  )

  kept-IsBest :
      (b : CostTier)
      → IsBest tokens ts (some b)
      → (is_crossed tokens t ≡ true → leb_ℤ t.tier.size b.tier.size ≡ true)
      → IsBest tokens (ts ++ t ∷ []) (some b)
  kept-IsBest b h below = (
    Mem-left b ts (t ∷ []) h.0,
    h.1,
    snoc-elim (λ x. is_crossed tokens x ≡ true → leb_ℤ x.tier.size b.tier.size ≡ true) ts t h.2
        below,
  )

  better-IsBest :
      (best : Option CostTier)
      → IsBest tokens ts best
      → IsBest tokens (ts ++ t ∷ []) (better tokens best t)
  better-IsBest none h = elim (Bool-cases (is_crossed tokens t)) [
    | inl e ↦ rw e (first-IsBest h e)
    | inr n ↦ rw n (snoc-elim (λ x. is_crossed tokens x ≡ false) ts t h n)
  ]
  better-IsBest (some b) h = elim (Bool-cases (is_crossed tokens t)) [
    | inr n ↦ rw n (kept-IsBest b h (λ e. absurd (ground (arith, n, e))))
    | inl e ↦ elim (Bool-cases (ltb_ℤ b.tier.size t.tier.size)) [
      | inl l ↦ rw e (rw l (larger-IsBest b h e l))
      | inr m ↦ rw e (rw m (kept-IsBest b h (λ k. ground (arith, m))))
    ]
  ]

best_tier-onto :
    (tokens : ℤ) (seen ts : List CostTier) (best : Option CostTier)
    → IsBest tokens seen best
    → IsBest tokens (seen ++ ts) (best_tier tokens best ts)
unfolding best_tier
best_tier-onto tokens seen [] best h = subst (λ l. IsBest tokens l best) (sym (append_nil seen)) h
best_tier-onto tokens seen (t ∷ ts) best h =
    subst (λ l. IsBest tokens l (best_tier tokens (better tokens best t) ts))
      (append_assoc seen (t ∷ []) ts)
      (best_tier-onto tokens (seen ++ t ∷ []) ts (better tokens best t)
        (better-IsBest tokens seen t best h))

-- A request is priced at the base rates under one tier: the largest one that its prompt has crossed,
-- in whatever order the tiers stand, and at the base rates alone if it has crossed none.
pub at_tier-IsBest :
    (c : Cost) (tokens : ℤ)
    → (best : Option CostTier) × (at_tier c tokens ≡ over_tier c best) × IsBest tokens c.tiers best
unfolding at_tier
at_tier-IsBest c tokens = (
  best_tier tokens none c.tiers,
  refl,
  best_tier-onto tokens [] c.tiers none (λ t m. absurd (elim m [ ])),
)

any_contains-week : (ws : List Window) (at : ℕ) → any_contains ws (at + week) ≡ any_contains ws at
unfolding any_contains
any_contains-week [] at = refl
any_contains-week (w ∷ ws) at = rw (contains-week w at, any_contains-week ws at) refl

first_schedule-week :
    (ss : List CostSchedule) (at : ℕ) → first_schedule ss (at + week) ≡ first_schedule ss at
unfolding first_schedule
first_schedule-week [] at = refl
first_schedule-week (s ∷ ss) at = rw (any_contains-week s.when at, first_schedule-week ss at) refl

pub resolve-week :
    (c : Cost) (tokens : ℤ) (at : ℕ) → resolve c tokens (at + week) ≡ resolve c tokens at
unfolding resolve at_schedule
resolve-week c tokens at = by_kind c.schedules
  where
    by_kind :
        (ss : List CostSchedule)
        → elim ss [ [] ↦ at_tier c tokens | s ∷ rest ↦ at_schedule c (at + week) ]
          ≡ elim ss [ [] ↦ at_tier c tokens | s ∷ rest ↦ at_schedule c at ]
    by_kind [] = refl
    by_kind (s ∷ rest) = ap (over_schedule c) (first_schedule-week c.schedules at)
