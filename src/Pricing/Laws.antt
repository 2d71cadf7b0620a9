-- ===== src/Pricing/Laws.antt =====
-- backend/internal/pricing/pricing.go and backend/internal/catalog/catalog.go: when two calls cost the
-- same, and when a cost is not negative.
use songguo.Prelude.{ℕ, ◌+◌, ◌≡◌, ◌∙◌, refl, sym, ap, Option, none, some, List, [], ◌∷◌}
use songguo.Prelude.Int.{ℤ}
use songguo.Catalog.{Cost, CostTier, CostSchedule}
use songguo.Catalog.Clock.{week}
use songguo.Catalog.Rates.{
  flat, override, best_tier, over_tier, over_schedule, at_tier, at_schedule, first_schedule,
  resolve,
}
use songguo.Catalog.Brackets.{resolve-week}
use songguo.Pricing.{Normalized, prompt_tokens, sum_axes, cost}

-- Two calls of one usage that start a whole week apart cost the same.
pub cost-week : (c : Cost) (n : Normalized) (at : ℕ) → cost c n (at + week) ≡ cost c n at
unfolding cost
cost-week c n at = ap (λ r. sum_axes r n) (resolve-week c (prompt_tokens n) at)

resolve-flat : (c : Cost) (tokens : ℤ) (at : ℕ) → resolve (flat c) tokens at ≡ flat c
unfolding resolve at_tier best_tier
resolve-flat c tokens at = refl

over_tier-flat : (c : Cost) (best : Option CostTier) → flat (over_tier c best) ≡ over_tier c best
unfolding override
over_tier-flat c none = refl
over_tier-flat c (some t) = refl

over_schedule-flat :
    (c : Cost) (s : Option CostSchedule) → flat (over_schedule c s) ≡ over_schedule c s
unfolding override
over_schedule-flat c none = refl
over_schedule-flat c (some s) = refl

flat-resolve : (c : Cost) (tokens : ℤ) (at : ℕ) → flat (resolve c tokens at) ≡ resolve c tokens at
unfolding resolve at_tier at_schedule
flat-resolve c tokens at = by_kind c.schedules
  where
    by_kind :
        (ss : List CostSchedule)
        → flat (elim ss [ [] ↦ at_tier c tokens | s ∷ rest ↦ at_schedule c at ])
          ≡ elim ss [ [] ↦ at_tier c tokens | s ∷ rest ↦ at_schedule c at ]
    by_kind [] = over_tier-flat c (best_tier tokens none c.tiers)
    by_kind (s ∷ rest) = over_schedule-flat c (first_schedule c.schedules at)

-- Rates that are resolved once are settled: at any later instant, and for a prompt of any size, they
-- resolve to themselves, so that the rest of the call is priced as it was when it started.
pub resolve_idem :
    (c : Cost) (tokens others : ℤ) (at later : ℕ)
    → resolve (resolve c tokens at) others later ≡ resolve c tokens at
resolve_idem c tokens others at later =
    ap (λ r. resolve r others later) (sym (flat-resolve c tokens at))
    ∙ resolve-flat (resolve c tokens at) others later
    ∙ flat-resolve c tokens at
