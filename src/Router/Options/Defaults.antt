-- ===== src/Router/Options/Defaults.antt =====
-- backend/internal/router/router.go: the knobs of a new router.
use songguo.Prelude.{◌≤◌, ◌<◌, arith}
use songguo.Prelude.Int.{pos_part}
use songguo.Router.Health.{sign_bit}
use songguo.Router.Health.Ladder.{IsValid}
use songguo.Router.Options.{Options, new_knobs}

-- Whatever the options, negative ones included, a new router has usable knobs: positive thresholds,
-- a positive base cooldown that is at most the ceiling, and a cap on recorded sessions that leaves
-- room for every demotion. (The options' durations are taken to be below 146 years.)
pub new_knobs-IsValid :
    (o : Options)
    → pos_part o.cooldown ≤ 4_611_686_018_427_387_904
    → pos_part o.cooldown_max ≤ 4_611_686_018_427_387_904
    → pos_part o.model_cooldown < sign_bit
    → IsValid (new_knobs o)
unfolding new_knobs
new_knobs-IsValid o h k l = ground arith
