-- ===== src/Config/Prices.antt =====
-- backend/internal/config/config.go: the prices that a configuration may hold.
use songguo.Prelude.{Bool, true, ◌&&◌, not, List, [], ◌∷◌}
use songguo.Prelude.Int.{ℤ, pos, ltb_ℤ}
use songguo.Prelude.Map.{Map}
use songguo.Catalog.{Cost, CostSchedule}
use songguo.Catalog.Rates.{validate_cost}
use songguo.Config.{Price}

-- `Axis`, without its name.
abbrev pub axes_of : Cost → List ℤ
axes_of c =
    c.input ∷ c.output ∷ c.cache_read ∷ c.cache_write ∷ c.character ∷ c.second ∷ c.image ∷ c.call
    ∷ []

abbrev pub schedule_axes : CostSchedule → List ℤ
schedule_axes s = s.input ∷ s.output ∷ s.cache_read ∷ s.cache_write ∷ []

abbrev pub none_negative : List ℤ → Bool
none_negative [] = true
none_negative (x ∷ xs) = not (ltb_ℤ x (pos 0)) && none_negative xs

unfoldable pub schedules_positive : List CostSchedule → Bool
schedules_positive [] = true
schedules_positive (s ∷ ss) = none_negative (schedule_axes s) && schedules_positive ss

-- One round of `validatePrices`: whether it finds no problem.
unfoldable pub validate_price : Cost → Bool
unfolding schedules_positive
validate_price c = none_negative (axes_of c) && schedules_positive c.schedules && validate_cost c

-- `validatePrices`
unfoldable pub validate_prices : Map Price → Bool
unfolding validate_price
validate_prices [] = true
validate_prices ((model, p) ∷ prices) = validate_price p.cost && validate_prices prices
