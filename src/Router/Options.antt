-- ===== src/Router/Options.antt =====
-- backend/internal/router/router.go: the routing knobs and their defaults.
pub mod Defaults
use songguo.Prelude.{ℕ, ◌+◌, ◌*◌, ltb, if◌then◌else◌}
use songguo.Prelude.Int.{ℤ, pos, leb_ℤ, pos_part}
use songguo.Prelude.Time.{second, minute}
use songguo.Router.Health.{Knobs}

-- Options: a field that is not positive takes its default.
pub record Options : Type 0 where
  pub fail_threshold : ℤ
  pub client_fail_threshold : ℤ
  pub cooldown : ℤ
  pub cooldown_max : ℤ
  pub dead_after : ℤ
  pub model_cooldown : ℤ
  pub sticky_ttl : ℤ
  pub sticky_max : ℤ

abbrev pub or_default : ℤ → ℕ → ℕ
or_default n d = if leb_ℤ n (pos 0) then d else pos_part n

-- The knobs that `New` settles on, from the options and the defaults at the top of the file.
pub new_knobs : Options → Knobs
new_knobs o =
    let fails = or_default o.client_fail_threshold 10 in
    let base = or_default o.cooldown (30 * second) in
    let ceiling = or_default o.cooldown_max (15 * minute) in
    let dies = or_default o.dead_after 5 in
    record {
      fail_threshold = or_default o.fail_threshold 3;
      client_fail_threshold = fails;
      client_fail_max = fails + dies;
      cooldown = base;
      cooldown_max = if ltb ceiling base then base else ceiling;
      dead_after = dies;
      model_cooldown = or_default o.model_cooldown minute;
    }
