-- ===== src/Pressure/Tests.antt =====
-- A monitor on a disk that fills up, over whole numbers for float64.
use songguo.Prelude.{ℕ, ◌*◌, ◌/◌, ◌≤◌, ◌≡◌, refl, true, false, none, some, [], ◌∷◌, arith, ltb}
use songguo.Prelude.Int.{pos}
use songguo.Prelude.Time.{second, minute}
use songguo.Pressure.{
  rank, normal, shed_capture, shed_analysis, Options, Probes, Monitor, no_readings, assess, sample,
  run, analysis,
}
use songguo.Pressure.Float64.{Floats}
use songguo.Pressure.Cooldown.{raise_lasts}
use songguo.Pressure.Restore.{calm_restores}

abbrev whole : Floats
whole = record {
  Float = ℕ;
  of_nat = λ n. n;
  of_uint64 = λ n. n;
  mul = λ a b. a * b;
  div = λ a b. a / b;
  lt = ltb;
}

abbrev lines : Options whole
lines = record {
  interval = pos second;
  cooldown = pos (5 * minute);
  mem_capture_pct = 30;
  mem_analysis_pct = 10;
  disk_dir = "/data";
  disk_free_min = 1000;
  io_pressure_pct = 10;
  write_lag = pos second;
}

abbrev idle : Monitor whole
idle = record {
  level = normal;
  shed_captures = 0;
  shed_analyses = 0;
  watches_backlog = true;
  watches_lag = true;
  reason = "";
  changed_at = 1;
  clear_at = 0;
  last = no_readings whole;
  last_over = [];
}

abbrev starving : Monitor whole
starving = record idle { level = shed_analysis; reason = "memory" }

abbrev clear : Probes whole
clear = record {
  mem = none;
  disk = some (5000, 9000);
  io = some 1;
  lag = 0;
  backlog = (0, 100);
  now = 2 * second;
}

abbrev full : Probes whole
full = record clear { disk = some (10, 9000); now = second }

full_target : (assess whole lines idle full).target ≡ shed_capture
unfolding assess
full_target = refl

raise_lasts_example :
    rank (assess whole lines idle full).target
    ≤ rank (run whole lines idle (full ∷ clear ∷ [])).level
raise_lasts_example =
    raise_lasts whole lines idle full (clear ∷ []) (ground (arith, full_target))
      ((omega arith, omega arith), tt)

analysis_shed : (analysis whole (some starving)).1 ≡ false
unfolding analysis
analysis_shed = refl

abbrev much_later : Probes whole
much_later = record clear { now = 400 * second }

calm_once : rank (assess whole lines starving clear).target ≡ 0
unfolding assess
calm_once = refl

calm_twice : rank (assess whole lines (run whole lines starving (clear ∷ [])) much_later).target ≡ 0
unfolding assess run sample
calm_twice = refl

calm_restores_example :
    rank (sample whole lines (run whole lines starving (clear ∷ [])) much_later).level ≡ 0
calm_restores_example =
    calm_restores whole lines starving clear much_later [] (omega arith) (omega arith)
      (calm_once, tt) calm_twice (omega arith)
