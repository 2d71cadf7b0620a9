-- ===== src/Pressure.antt =====
-- backend/internal/pressure/pressure.go: the monitor that decides what bookkeeping is shed.
pub mod Float64
pub mod Signals
pub mod Cooldown
pub mod Restore
pub mod Shed
pub mod Tests
use songguo.Prelude.{
  ℕ, zero, ◌+◌, ◌-◌, ◌*◌, ◌/◌, Bool, true, false, ◌&&◌, not, Option, none, some, List, [], ◌∷◌,
  ◌++◌, String, ltb, leb, ◌==◌, if◌then◌else◌, str_eq,
}
use songguo.Prelude.Int.{ℤ, leb_ℤ, pos, pos_part}
use songguo.Prelude.Time.{second, minute}
use songguo.Router.Health.{lt_i64, double_i64}
use songguo.Pressure.Float64.{Floats}

pub data Level : Type 0 where
  normal : Level
  shed_capture : Level
  shed_analysis : Level

-- The number of a level, by which the code compares levels.
abbrev pub rank : Level → ℕ
rank normal = 0
rank shed_capture = 1
rank shed_analysis = 2

-- `Level.String`
abbrev pub level_name : Level → String
level_name normal = "normal"
level_name shed_capture = "shed_capture"
level_name shed_analysis = "shed_analysis"

abbrev pub millisecond : ℕ
millisecond = 1_000_000

module _ (f : Floats) where
  open f use {Float, of_nat, of_uint64, mul, div, lt}

  -- Without the logger and the probes.
  pub record Options : Type 0 where
    pub interval : ℤ
    pub cooldown : ℤ
    pub mem_capture_pct : Float
    pub mem_analysis_pct : Float
    pub disk_dir : String
    pub disk_free_min : ℕ
    pub io_pressure_pct : Float
    pub write_lag : ℤ

  -- What the probes, the two watched functions and the clock answer at one sample.
  pub record Probes : Type 0 where
    pub mem : Option (ℕ × ℕ)
    pub disk : Option (ℕ × ℕ)
    pub io : Option Float
    pub lag : ℕ
    pub backlog : ℕ × ℕ
    pub now : ℕ

  -- The fields of `Stats` that a sample fills in; `over` stands in the verdict.
  pub record Readings : Type 0 where
    pub mem_available : ℕ
    pub mem_total : ℕ
    pub disk_free : ℕ
    pub disk_total : ℕ
    pub io_pressure : Float
    pub write_lag_ms : ℕ
    pub capture_backlog : ℕ
    pub capture_budget : ℕ

  abbrev pub no_readings : Readings
  no_readings = record {
    mem_available = 0;
    mem_total = 0;
    disk_free = 0;
    disk_total = 0;
    io_pressure = of_nat 0;
    write_lag_ms = 0;
    capture_backlog = 0;
    capture_budget = 0;
  }

  -- The variables that `sample` builds up: `r`, `target` and `reason`.
  pub record Verdict : Type 0 where
    pub over : List String
    pub target : Level
    pub reason : String
    pub readings : Readings

  -- The monitor; the flags tell whether `backlog` and `writeLag` are set.
  pub record Monitor : Type 0 where
    pub level : Level
    pub shed_captures : ℕ
    pub shed_analyses : ℕ
    pub watches_backlog : Bool
    pub watches_lag : Bool
    pub reason : String
    pub changed_at : ℕ
    pub clear_at : ℕ
    pub last : Readings
    pub last_over : List String

  abbrev pub is_positive : Float → Bool
  is_positive x = lt (of_nat 0) x

  -- The closure `raise`.
  pub raise : Level → String → Verdict → Verdict
  raise l why v =
      let w = record v { over = v.over ++ why ∷ [] } in
      if ltb (rank v.target) (rank l) then record w { target = l; reason = why } else w

  unfoldable pub nothing_over : Verdict
  nothing_over = record { over = []; target = normal; reason = ""; readings = no_readings }

  -- `float64(avail) / float64(total) * 100`
  abbrev pub share : ℕ → ℕ → Float
  share avail total = mul (div (of_uint64 avail) (of_uint64 total)) (of_nat 100)

  sense_memory : Options → Option (ℕ × ℕ) → Verdict → Verdict
  unfolding raise
  sense_memory o none v = v
  sense_memory o (some (avail, total)) v =
      if total == 0
      then v
      else let w = record v {
        readings = record v.readings { mem_available = avail; mem_total = total };
      } in
        let pct = share avail total in
        if is_positive o.mem_analysis_pct && lt pct o.mem_analysis_pct
        then raise shed_analysis "memory" w
        else if is_positive o.mem_capture_pct && lt pct o.mem_capture_pct
        then raise shed_capture "memory" w
        else w

  sense_disk : Options → Option (ℕ × ℕ) → Verdict → Verdict
  unfolding raise
  sense_disk o none v = v
  sense_disk o (some (free, total)) v =
      if str_eq o.disk_dir ""
      then v
      else let w = record v {
        readings = record v.readings { disk_free = free; disk_total = total };
      } in
        if ltb 0 o.disk_free_min && ltb free o.disk_free_min then raise shed_capture "disk" w else w

  -- `some >= o.IOPressurePct`, between floats that are not NaN.
  sense_io : Options → Option Float → Verdict → Verdict
  unfolding raise
  sense_io o none v = v
  sense_io o (some x) v =
      if not (is_positive o.io_pressure_pct)
      then v
      else let w = record v { readings = record v.readings { io_pressure = x } } in
        if not (lt x o.io_pressure_pct) then raise shed_capture "io_pressure" w else w

  sense_lag : Options → Bool → ℕ → Verdict → Verdict
  unfolding raise
  sense_lag o false lag v = v
  sense_lag o true lag v =
      let w = record v { readings = record v.readings { write_lag_ms = lag / millisecond } } in
      if not (leb_ℤ o.write_lag (pos 0)) && leb_ℤ o.write_lag (pos lag)
      then raise shed_capture "write_lag" w
      else w

  -- `budget > 0 && pending*2 >= budget`, on int64.
  pub is_half_full : ℕ × ℕ → Bool
  unfolding lt_i64 double_i64
  is_half_full (pending, budget) = lt_i64 0 budget && not (lt_i64 (double_i64 pending) budget)

  sense_backlog : Bool → ℕ × ℕ → Verdict → Verdict
  unfolding raise is_half_full
  sense_backlog false b v = v
  sense_backlog true b v =
      let w = record v {
        readings = record v.readings { capture_backlog = b.0; capture_budget = b.1 };
      } in
      if is_half_full b then raise shed_capture "capture_backlog" w else w

  -- `sample` down to `m.last = r`.
  pub assess : Options → Monitor → Probes → Verdict
  unfolding sense_memory sense_disk sense_io sense_lag sense_backlog nothing_over
  assess o m p = sense_backlog m.watches_backlog p.backlog (
      sense_lag o m.watches_lag p.lag
        (sense_io o p.io (sense_disk o p.disk (sense_memory o p.mem nothing_over))))

  -- `set`, without its log line.
  pub set : Level → String → ℕ → Monitor → Monitor
  set to reason now m = record m { level = to; reason = reason; changed_at = now; clear_at = 0 }

  -- `if m.clearAt.IsZero() { m.clearAt = now }`
  abbrev pub mark_clear : ℕ → Monitor → Monitor
  mark_clear now m = if m.clear_at == 0 then record m { clear_at = now } else m

  -- The switch of `sample`. The cooldown is the one that `new` has made positive.
  pub move : Options → Level → String → ℕ → Monitor → Monitor
  unfolding set
  move o target reason now m =
      if ltb (rank m.level) (rank target)
      then set target reason now m
      else if ltb (rank target) (rank m.level)
      then (let w = mark_clear now m in
          if leb (w.clear_at + pos_part o.cooldown) now then set target reason now w else w)
      else record m { clear_at = 0; reason = if rank target == 0 then m.reason else reason }

  -- `sample`
  unfoldable pub sample : Options → Monitor → Probes → Monitor
  unfolding assess move
  sample o m p =
      let v = assess o m p in
      move o v.target v.reason p.now (record m { last = v.readings; last_over = v.over })

  abbrev pub default_positive : ℤ → ℕ → ℤ
  default_positive d n = if leb_ℤ d (pos 0) then pos n else d

  abbrev pub settle : Options → Options
  settle o = record o {
    interval = default_positive o.interval second;
    cooldown = default_positive o.cooldown (5 * minute);
  }

  -- `New`: the settled options and the monitor after its first sample. `started` is the clock's
  -- reading before the sample's.
  pub new : Options → ℕ → Probes → Options × Monitor
  unfolding sample
  new o started p = (
    settle o,
    sample (settle o)
        (record {
          level = normal;
          shed_captures = 0;
          shed_analyses = 0;
          watches_backlog = false;
          watches_lag = false;
          reason = "";
          changed_at = started;
          clear_at = 0;
          last = no_readings;
          last_over = [];
        })
        p,
  )

  -- `Run`, as the samples at its ticks.
  pub run : Options → Monitor → List Probes → Monitor
  unfolding sample
  run o m [] = m
  run o m (p ∷ ps) = run o (sample o m p) ps

  -- `Level`, where `none` is a nil monitor.
  abbrev pub level_of : Option Monitor → Level
  level_of none = normal
  level_of (some m) = m.level

  -- `Capture`
  unfoldable pub capture : Bool → Option Monitor → Option Monitor × Bool
  capture want none = (none, want)
  capture want (some m) =
      if not want
      then (some m, want)
      else if ltb (rank (level_of (some m))) (rank shed_capture)
      then (some m, want)
      else (some (record m { shed_captures = m.shed_captures + 1 }), false)

  -- `Analysis`
  unfoldable pub analysis : Option Monitor → Option Monitor × Bool
  analysis none = (none, true)
  analysis (some m) =
      if ltb (rank (level_of (some m))) (rank shed_analysis)
      then (some m, true)
      else (some (record m { shed_analyses = m.shed_analyses + 1 }), false)

  -- `Stats`: the fields that say how long the level holds; 0 is no time to restore.
  pub restore_at_ms : Options → Monitor → ℕ
  restore_at_ms o m =
      if m.clear_at == 0 then 0 else (m.clear_at + pos_part o.cooldown) / millisecond
