-- ===== src/Catalog/Tests.antt =====
-- Windows in Beijing, and a price with two tiers.
use songguo.Prelude.{ℕ, ◌≡◌, ◌↔◌, refl, true, false, Option, some, [], ◌∷◌, String}
use songguo.Prelude.Int.{pos, negsuc, ltb_ℤ, ◌+ℤ◌, ◌-ℤ◌, ◌*ℤ◌}
use songguo.Catalog.{Cost, CostTier, Window}
use songguo.Catalog.Clock.{contains, location, parse_clock, validate, weekday}
use songguo.Catalog.Rates.{at_tier, over_tier}
use songguo.Catalog.Brackets.{IsBest, at_tier-IsBest}
use songguo.Catalog.Windows.{contains-meeting}
use songguo.Catalog.Reached.{contains_iff}

abbrev window : String → String → Window
window start end = record {
  kind = "weekly";
  offset = "+08:00";
  days = "mon" ∷ "tue" ∷ [];
  start = start;
  end = end;
}

-- Monday, 5 January 1970, at ten in Beijing.
abbrev monday_ten : ℕ
monday_ten = 352_800

morning : contains (window "09:00" "12:00") monday_ten ≡ true
unfolding contains weekday ◌+ℤ◌ ◌-ℤ◌ ◌*ℤ◌
morning = refl

contains-meeting_example : contains (window "12:00" "14:00") monday_ten ≡ false
unfolding location
contains-meeting_example =
    contains-meeting (window "09:00" "12:00") (window "12:00" "14:00") monday_ten refl refl morning

clock_signed : parse_clock "-5:00" ≡ some (negsuc 299)
unfolding parse_clock ◌+ℤ◌ ◌-ℤ◌ ◌*ℤ◌
clock_signed = refl

clock_earlier : parse_clock "-9:30" ≡ some (negsuc 509)
unfolding parse_clock ◌+ℤ◌ ◌-ℤ◌ ◌*ℤ◌
clock_earlier = refl

signed_accepted : validate (window "-9:30" "-5:00") ≡ true
unfolding validate ◌+ℤ◌ ◌-ℤ◌ ◌*ℤ◌
signed_accepted = refl

contains_iff_example :
    ((at : ℕ) × (contains (window "-9:30" "-5:00") at ≡ true)) ↔ (ltb_ℤ (pos 0) (negsuc 299) ≡ true)
contains_iff_example =
    contains_iff (window "-9:30" "-5:00") (negsuc 509) (negsuc 299) clock_earlier clock_signed
      signed_accepted

abbrev tier : ℕ → ℕ → CostTier
tier size rate = record {
  input = pos rate;
  output = pos 0;
  cache_read = pos 0;
  cache_write = pos 0;
  tier = record { kind = "context"; size = pos size };
}

abbrev tiered : Cost
tiered = record {
  input = pos 2;
  output = pos 8;
  cache_read = pos 1;
  cache_write = pos 0;
  character = pos 0;
  second = pos 0;
  image = pos 0;
  call = pos 0;
  tiers = tier 500 6 ∷ tier 200 4 ∷ [];
  schedules = [];
}

upper_tier : (at_tier tiered (pos 501)).input ≡ pos 6
unfolding at_tier
upper_tier = refl

at_tier-IsBest_example :
    (best : Option CostTier) × (at_tier tiered (pos 501) ≡ over_tier tiered best)
    × IsBest (pos 501) tiered.tiers best
at_tier-IsBest_example = at_tier-IsBest tiered (pos 501)
