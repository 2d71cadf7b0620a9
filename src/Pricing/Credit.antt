-- ===== src/Pricing/Credit.antt =====
-- backend/internal/pricing/pricing.go and backend/internal/config/config.go: which prices that a
-- configuration accepts can give a user money back.
use songguo.Prelude.{
  ℕ, zero, suc, ◌<◌, ◌≡◌, ◌∙◌, ap, sym, subst, refl, true, List, [], ◌∷◌, arith, All,
}
use songguo.Prelude.Int.{ℤ, pos, negsuc, ltb_ℤ, ◌*ℤ◌, +ℤ_zero}
use songguo.Catalog.{Cost, CostSchedule}
use songguo.Catalog.Rates.{validate_cost, resolve, at_tier, best_tier, override}
use songguo.Catalog.Windows.{both-right, both-left}
use songguo.Config.Prices.{
  axes_of, schedule_axes, none_negative, schedules_positive, validate_price,
}
use songguo.Pricing.{Normalized, prompt_tokens, token_cost, sum_axes, cost}
use songguo.Pricing.Signs.{IsNat, TierIsNat, ScheduleIsNat, BaseIsNat, UsageIsNat, cost-IsNat}

axes_of-IsNat : (c : Cost) → none_negative (axes_of c) ≡ true → BaseIsNat c
axes_of-IsNat c h = ground (arith, h)

schedule_axes-IsNat : (s : CostSchedule) → none_negative (schedule_axes s) ≡ true → ScheduleIsNat s
schedule_axes-IsNat s h = ground (arith, h)

schedules_positive-IsNat :
    (ss : List CostSchedule) → schedules_positive ss ≡ true → All ScheduleIsNat ss
unfolding schedules_positive
schedules_positive-IsNat [] h = tt
schedules_positive-IsNat (s ∷ ss) h = (
  schedule_axes-IsNat s (both-left (none_negative (schedule_axes s)) (schedules_positive ss) h),
  schedules_positive-IsNat ss
      (both-right (none_negative (schedule_axes s)) (schedules_positive ss) h),
)

-- With a price that a configuration accepts and that has no negative rate in a tier, a usage whose
-- counts are none of them negative costs nothing or more.
pub validate_price-IsNat :
    (c : Cost) (n : Normalized) (at : ℕ)
    → validate_price c ≡ true
    → All TierIsNat c.tiers
    → UsageIsNat n
    → IsNat (cost c n at)
unfolding validate_price
validate_price-IsNat c n at h tiers u =
    let rates = both-left _ (validate_cost c) h in
    let base = both-left _ (schedules_positive c.schedules) rates in
    let timed = both-right (none_negative (axes_of c)) (schedules_positive c.schedules) rates in
    cost-IsNat c n at
      (record {
        base = axes_of-IsNat c base;
        tiers = tiers;
        schedules = schedules_positive-IsNat c.schedules timed;
      })
      u

-- A price with one tier, whose rate of fresh input is the negative of k + 1.
abbrev pub rebate : Cost → ℕ → ℕ → Cost
rebate c k size = record c {
  call = pos 0;
  tiers =
      record {
        input = negsuc k;
        output = pos 0;
        cache_read = pos 0;
        cache_write = pos 0;
        tier = record { kind = "context"; size = pos size };
      }
      ∷ [];
  schedules = [];
}

-- A usage of fresh input alone.
abbrev pub fresh_input : ℕ → Normalized
fresh_input m = record {
  input_tokens = pos m;
  output_tokens = pos 0;
  cached_input_tokens = pos 0;
  cache_creation_tokens = pos 0;
  thinking_tokens = pos 0;
  calls = pos 0;
  images = pos 0;
  seconds = pos 0;
  chars = pos 0;
}

zero_times : (a : ℤ) → pos 0 *ℤ a ≡ pos 0
unfolding ◌*ℤ◌
zero_times a = ground arith

times_zero : (a : ℤ) → a *ℤ pos 0 ≡ pos 0
unfolding ◌*ℤ◌
times_zero a = ground arith

negative_product : (m k : ℕ) → 0 < m → ltb_ℤ (pos m *ℤ negsuc k) (pos 0) ≡ true
unfolding ◌*ℤ◌
negative_product zero k h = absurd (omega (arith, h))
negative_product (suc m) k h = grind arith

prompt_fresh : (m : ℕ) → prompt_tokens (fresh_input m) ≡ pos m
unfolding prompt_tokens
prompt_fresh m = rw (+ℤ_zero (pos m), +ℤ_zero (pos m)) refl

rebate_applies :
    (c : Cost) (k size m at : ℕ)
    → size < m
    → (resolve (rebate c k size) (pos m) at).input ≡ negsuc k
unfolding resolve at_tier best_tier override
rebate_applies c k size m at h = ground (arith, h)

rebate_sum : (c : Cost) (m : ℕ) → c.call ≡ pos 0 → sum_axes c (fresh_input m) ≡ pos m *ℤ c.input
unfolding sum_axes token_cost
rebate_sum c m h = simp (zero_times, times_zero, +ℤ_zero, h)

rebate_calls :
    (c : Cost) (k size at : ℕ) (tokens : ℤ) → (resolve (rebate c k size) tokens at).call ≡ pos 0
unfolding resolve at_tier best_tier override
rebate_calls c k size at tokens = ground arith

rebate_cost :
    (c : Cost) (k size m at : ℕ)
    → size < m
    → cost (rebate c k size) (fresh_input m) at ≡ pos m *ℤ negsuc k
unfolding cost
rebate_cost c k size m at h =
    let tokens = prompt_tokens (fresh_input m) in
    rebate_sum (resolve (rebate c k size) tokens at) m (rebate_calls c k size at tokens)
    ∙ ap (λ p. pos m *ℤ (resolve (rebate c k size) p at).input) (prompt_fresh m)
    ∙ ap (λ x. pos m *ℤ x) (rebate_applies c k size m at h)

rebate_accepted :
    (c : Cost) (k size : ℕ)
    → none_negative (axes_of c) ≡ true
    → validate_price (rebate c k size) ≡ true
unfolding validate_price validate_cost
rebate_accepted c k size h = ground (arith, h)

-- A configuration accepts such a price as it accepts its base rates, and a call whose fresh input has
-- crossed the tier then costs less than nothing: its user is credited.
pub validate_price-rebate :
    (c : Cost) (k size m at : ℕ)
    → validate_price c ≡ true
    → size < m
    → (validate_price (rebate c k size) ≡ true)
      × (ltb_ℤ (cost (rebate c k size) (fresh_input m) at) (pos 0) ≡ true)
unfolding validate_price
validate_price-rebate c k size m at h crossed =
    let rates = both-left _ (validate_cost c) h in
    (
      rebate_accepted c k size (both-left _ (schedules_positive c.schedules) rates),
      subst (λ x. ltb_ℤ x (pos 0) ≡ true) (sym (rebate_cost c k size m at crossed))
          (negative_product m k (omega (arith, crossed))),
    )
