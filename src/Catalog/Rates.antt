-- ===== src/Catalog/Rates.antt =====
-- backend/internal/catalog/catalog.go: the rates that apply to one request.
use songguo.Prelude.{
  ℕ, Bool, true, false, ◌&&◌, Option, none, some, List, [], ◌∷◌, if◌then◌else◌, str_eq,
}
use songguo.Prelude.Int.{ℤ, pos, ltb_ℤ, eqb_ℤ}
use songguo.Catalog.{Cost, CostTier, CostSchedule, Window}
use songguo.Catalog.Clock.{contains, validate}

-- `flat`
abbrev pub flat : Cost → Cost
flat c = record c { tiers = []; schedules = [] }

-- `override`, axis by axis.
abbrev pub stated : ℤ → ℤ → ℤ
stated rate base = if eqb_ℤ rate (pos 0) then base else rate

unfoldable pub override : Cost → ℤ → ℤ → ℤ → ℤ → Cost
override c input output cache_read cache_write = record c {
  input = stated input c.input;
  output = stated output c.output;
  cache_read = stated cache_read c.cache_read;
  cache_write = stated cache_write c.cache_write;
}

-- A tier that the request has crossed.
abbrev pub is_crossed : ℤ → CostTier → Bool
is_crossed tokens t = str_eq t.tier.kind "context" && ltb_ℤ t.tier.size tokens

-- One round of the loop of `atTier`.
abbrev pub better : ℤ → Option CostTier → CostTier → Option CostTier
better tokens best t =
    if is_crossed tokens t
    then elim best [
      | none ↦ some t
      | some b ↦ if ltb_ℤ b.tier.size t.tier.size then some t else some b
    ]
    else best

unfoldable pub best_tier : ℤ → Option CostTier → List CostTier → Option CostTier
best_tier tokens best [] = best
best_tier tokens best (t ∷ ts) = best_tier tokens (better tokens best t) ts

abbrev pub over_tier : Cost → Option CostTier → Cost
over_tier c none = flat c
over_tier c (some t) = override (flat c) t.input t.output t.cache_read t.cache_write

-- `atTier`
unfoldable pub at_tier : Cost → ℤ → Cost
unfolding best_tier override
at_tier c tokens = over_tier c (best_tier tokens none c.tiers)

unfoldable pub any_contains : List Window → ℕ → Bool
any_contains [] at = false
any_contains (w ∷ ws) at = if contains w at then true else any_contains ws at

-- The loop of `atSchedule`.
unfoldable pub first_schedule : List CostSchedule → ℕ → Option CostSchedule
unfolding any_contains
first_schedule [] at = none
first_schedule (s ∷ ss) at = if any_contains s.when at then some s else first_schedule ss at

abbrev pub over_schedule : Cost → Option CostSchedule → Cost
over_schedule c none = flat c
over_schedule c (some s) = override (flat c) s.input s.output s.cache_read s.cache_write

-- `atSchedule`
unfoldable pub at_schedule : Cost → ℕ → Cost
unfolding first_schedule override
at_schedule c at = over_schedule c (first_schedule c.schedules at)

-- `Resolve`
unfoldable pub resolve : Cost → ℤ → ℕ → Cost
unfolding at_tier at_schedule
resolve c tokens at = elim c.schedules [ [] ↦ at_tier c tokens | s ∷ ss ↦ at_schedule c at ]

unfoldable pub all_valid : List Window → Bool
all_valid [] = true
all_valid (w ∷ ws) = validate w && all_valid ws

abbrev has_window : List Window → Bool
has_window [] = false
has_window (w ∷ ws) = true

unfoldable pub schedules_valid : List CostSchedule → Bool
unfolding all_valid
schedules_valid [] = true
schedules_valid (s ∷ ss) = has_window s.when && all_valid s.when && schedules_valid ss

abbrev one_kind : List CostTier → List CostSchedule → Bool
one_kind [] ss = true
one_kind (t ∷ ts) [] = true
one_kind (t ∷ ts) (s ∷ ss) = false

-- `ValidateCost`: whether it answers nil.
unfoldable pub validate_cost : Cost → Bool
unfolding schedules_valid
validate_cost c = one_kind c.tiers c.schedules && schedules_valid c.schedules
