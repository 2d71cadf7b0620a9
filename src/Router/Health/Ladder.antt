-- ===== src/Router/Health/Ladder.antt =====
-- backend/internal/router/health.go: how long a demotion lasts, and how many it takes.
use native.Mathlib.Nat.{pow-suc}
use songguo.Prelude.{
  ℕ, zero, suc, ◌+◌, ◌-◌, ◌*◌, ◌^◌, ◌≤◌, ◌<◌, ◌≡◌, inl, inr, false, arith, ltb, min, Bool-cases,
  ◌∙◌, sym, ltb→lt,
}
use songguo.Router.Health.{
  Knobs, VendorHealth, lt_i64, double_i64, add_duration, cooldown_loop, next_cooldown, demote,
  sign_bit,
}

-- What `New` establishes of the knobs, with a ceiling of at most 146 years on the cooldowns.
pub record IsValid (k : Knobs) : Type 0 where
  pub fails : 0 < k.fail_threshold
  pub client_fails : 0 < k.client_fail_threshold
  pub client_max : k.client_fail_max ≡ k.client_fail_threshold + k.dead_after
  pub cools : 0 < k.cooldown
  pub ordered : k.cooldown ≤ k.cooldown_max
  pub capped : k.cooldown_max ≤ 4_611_686_018_427_387_904
  pub dies : 0 < k.dead_after
  pub model_cools : 0 < k.model_cooldown
  pub model_capped : k.model_cooldown < sign_bit

lt_i64_lem : (a b : ℕ) → a < sign_bit → b < sign_bit → lt_i64 a b ≡ ltb a b
unfolding lt_i64
lt_i64_lem a b h k = ground arith

double_i64_lem : (d : ℕ) → d < 4_611_686_018_427_387_904 → double_i64 d ≡ d * 2
unfolding double_i64
double_i64_lem d h = omega arith

pow-pos : (n : ℕ) → 0 < 2 ^ n
pow-pos zero = omega arith
pow-pos (suc n) = omega (arith, pow-pos n, pow-suc 2 n)

mul-pow_suc : (d n : ℕ) → d * 2 ^ suc n ≡ d * 2 * 2 ^ n
mul-pow_suc d n = grind (arith, pow-suc 2 n)

pub le-mul-pow : (d n : ℕ) → d ≤ d * 2 ^ n
le-mul-pow d n = grind (arith, pow-pos n)

cooldown_loop_lem :
    (n max d : ℕ)
    → max ≤ 4_611_686_018_427_387_904
    → d < sign_bit
    → (min (cooldown_loop n max d) max ≡ min (d * 2 ^ n) max) × (cooldown_loop n max d < sign_bit)
unfolding cooldown_loop
cooldown_loop_lem zero max d h k = (omega arith, k)
cooldown_loop_lem (suc n) max d h k = elim (Bool-cases (lt_i64 d max)) [
  | inl e ↦
      let small : d < max = ltb→lt d max (sym (lt_i64_lem d max k (omega arith)) ∙ e) in
      let ih = cooldown_loop_lem n max (d * 2) h (omega arith) in
      rw (e, cooldown_loop, double_i64_lem d (omega arith), mul-pow_suc d n) ih
  | inr e ↦
      let big : ltb d max ≡ false = sym (lt_i64_lem d max k (omega arith)) ∙ e in
      let wide : max ≤ d = ground arith in
      rw (e, cooldown_loop) (omega (arith, le-mul-pow d (suc n)), k)
]

-- The n-th demotion in a row cools for the base cooldown doubled n - 1 times, or for the ceiling if
-- that is less; the doubling never overflows.
pub next_cooldown_lem :
    (k : Knobs) (n : ℕ)
    → IsValid k
    → next_cooldown k (suc n) ≡ min (k.cooldown * 2 ^ n) k.cooldown_max
unfolding next_cooldown
next_cooldown_lem k n v =
    let one : suc n - 1 ≡ n = omega arith in
    let (value, bound) =
      cooldown_loop_lem n k.cooldown_max k.cooldown v.capped (omega (arith, v.ordered, v.capped)) in
    rw one (
      ground (
        arith,
        value,
        v.capped,
        lt_i64_lem k.cooldown_max (cooldown_loop n k.cooldown_max k.cooldown),
      ))

pub next_cooldown_bounds :
    (k : Knobs) (n : ℕ)
    → IsValid k
    → (k.cooldown ≤ next_cooldown k (suc n)) × (next_cooldown k (suc n) ≤ k.cooldown_max)
next_cooldown_bounds k n v =
    omega (arith, next_cooldown_lem k n v, le-mul-pow k.cooldown n, v.ordered)

-- A demotion opens a cooldown that starts now.
pub demote_until :
    (k : Knobs) (h : VendorHealth) (now : ℕ)
    → IsValid k
    → (demote k h now).0.open_until ≡ now + min (k.cooldown * 2 ^ h.demotions) k.cooldown_max
unfolding demote add_duration
demote_until k h now v =
    let one : h.demotions + 1 ≡ suc h.demotions = omega arith in
    rw one (ground (arith, next_cooldown_lem k h.demotions v, v.capped))
