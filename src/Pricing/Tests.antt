-- ===== src/Pricing/Tests.antt =====
-- A price with a tier and one with a peak hour.
use songguo.Prelude.{◌≡◌, refl, true, [], ◌∷◌, arith}
use songguo.Prelude.Int.{pos, ltb_ℤ, ◌+ℤ◌, ◌-ℤ◌, ◌*ℤ◌}
use songguo.Catalog.{Cost, CostTier, CostSchedule}
use songguo.Catalog.Clock.{week}
use songguo.Config.Prices.{validate_price}
use songguo.Pricing.{Normalized, cost}
use songguo.Pricing.Signs.{IsNat, TierIsNat, UsageIsNat}
use songguo.Pricing.Credit.{rebate, fresh_input, validate_price-IsNat, validate_price-rebate}

abbrev base : Cost
base = record {
  input = pos 2;
  output = pos 8;
  cache_read = pos 1;
  cache_write = pos 0;
  character = pos 0;
  second = pos 0;
  image = pos 0;
  call = pos 0;
  tiers = [];
  schedules = [];
}

abbrev doubled : CostTier
doubled = record {
  input = pos 4;
  output = pos 16;
  cache_read = pos 0;
  cache_write = pos 0;
  tier = record { kind = "context"; size = pos 200 };
}

abbrev peak : CostSchedule
peak = record {
  input = pos 4;
  output = pos 0;
  cache_read = pos 0;
  cache_write = pos 0;
  when =
      record {
        kind = "weekly";
        offset = "+08:00";
        days = "mon" ∷ [];
        start = "09:00";
        end = "12:00";
      }
      ∷ [];
}

abbrev usage : Normalized
usage = record (fresh_input 150) {
  cached_input_tokens = pos 100;
  cache_creation_tokens = pos 10;
  output_tokens = pos 3;
}

abbrev tiered : Cost
tiered = record base { tiers = doubled ∷ [] }

abbrev timed : Cost
timed = record base { schedules = peak ∷ [] }

-- Written tokens fall back to the input's rate, and read ones keep the base's.
tiered_cost : cost tiered usage 0 ≡ pos 788
unfolding cost songguo.Catalog.Rates.resolve ◌+ℤ◌ ◌*ℤ◌
tiered_cost = refl

-- The peak's hour on Monday, 5 January 1970.
peak_cost : cost timed (fresh_input 10) 352_800 ≡ pos 40
unfolding cost songguo.Catalog.Rates.resolve songguo.Catalog.Rates.any_contains
    songguo.Catalog.Clock.contains songguo.Catalog.Clock.weekday ◌+ℤ◌ ◌-ℤ◌ ◌*ℤ◌
peak_cost = refl

tiered_accepted : validate_price tiered ≡ true
unfolding validate_price songguo.Catalog.Rates.validate_cost
tiered_accepted = refl

doubled_positive : TierIsNat doubled
doubled_positive = record { input = refl; output = refl; cache_read = refl; cache_write = refl }

usage_positive : UsageIsNat usage
usage_positive = record {
  input_tokens = refl;
  output_tokens = refl;
  cached_input_tokens = refl;
  cache_creation_tokens = refl;
  images = refl;
  seconds = refl;
  chars = refl;
}

validate_price-IsNat_example : IsNat (cost tiered usage 0)
validate_price-IsNat_example =
    validate_price-IsNat tiered usage 0 tiered_accepted (doubled_positive, tt) usage_positive

base_accepted : validate_price base ≡ true
unfolding validate_price songguo.Catalog.Rates.validate_cost
base_accepted = refl

validate_price-rebate_example :
    (validate_price (rebate base 2 200) ≡ true)
    × (ltb_ℤ (cost (rebate base 2 200) (fresh_input 201) 0) (pos 0) ≡ true)
validate_price-rebate_example = validate_price-rebate base 2 200 201 0 base_accepted (omega arith)
