-- ===== src/Pressure/Signals.antt =====
-- backend/internal/pressure/pressure.go: which signals lead to which level.
use songguo.Prelude.{
  ℕ, ◌/◌, ◌≡◌, refl, Bool, true, false, ◌&&◌, not, Option, none, some, List, [], ◌∷◌, ◌++◌, String,
  arith, ◌==◌,
}
use songguo.Pressure.{
  Level, rank, shed_capture, shed_analysis, Options, Probes, Monitor, Verdict, assess, raise,
  sense_memory, sense_disk, sense_io, sense_lag, sense_backlog, nothing_over, millisecond, share,
  is_positive,
}
use songguo.Pressure.Float64.{Floats}

module _ (f : Floats) where
  open f use {lt}

  -- The available share of the memory is below the line for analysis.
  pub is_starved : Options f → Option (ℕ × ℕ) → Bool
  is_starved o none = false
  is_starved o (some (avail, total)) =
      not (total == 0)
      && is_positive f o.mem_analysis_pct
      && lt (share f avail total) o.mem_analysis_pct

  abbrev pub is_two : Level → Bool
  is_two shed_analysis = true
  is_two _ = false

  abbrev pub is_some_over : List String → Bool
  is_some_over [] = false
  is_some_over (x ∷ xs) = true

  -- The target is above normal exactly when a signal is over its line.
  pub record IsSound (starved : Bool) (v : Verdict f) : Type 0 where
    pub analysed : is_two v.target ≡ starved
    pub raised : is_some_over v.over ≡ not (rank v.target == 0)

  is_some_over-append : (xs : List String) (x : String) → is_some_over (xs ++ x ∷ []) ≡ true
  is_some_over-append [] x = refl
  is_some_over-append (y ∷ xs) x = refl

  raise-IsSound :
      (s : Bool) (why : String) (v : Verdict f)
      → IsSound s v
      → IsSound s (raise f shed_capture why v)
  unfolding raise
  raise-IsSound s why v h = ground (arith, is_some_over-append v.over why)

  memory-IsSound :
      (o : Options f) (mem : Option (ℕ × ℕ))
      → IsSound (is_starved o mem) (sense_memory f o mem (nothing_over f))
  unfolding is_starved sense_memory raise nothing_over
  memory-IsSound o none = ground arith
  memory-IsSound o (some (avail, total)) = ground arith

  disk-IsSound :
      (s : Bool) (o : Options f) (disk : Option (ℕ × ℕ)) (v : Verdict f)
      → IsSound s v
      → IsSound s (sense_disk f o disk v)
  unfolding sense_disk
  disk-IsSound s o none v h = h
  disk-IsSound s o (some (free, total)) v h = ground (
    arith,
    raise-IsSound s "disk"
        (record v { readings = record v.readings { disk_free = free; disk_total = total } }),
  )

  io-IsSound :
      (s : Bool) (o : Options f) (io : Option f.Float) (v : Verdict f)
      → IsSound s v
      → IsSound s (sense_io f o io v)
  unfolding sense_io
  io-IsSound s o none v h = h
  io-IsSound s o (some x) v h = ground (
    arith,
    raise-IsSound s "io_pressure" (record v { readings = record v.readings { io_pressure = x } }),
  )

  lag-IsSound :
      (s : Bool) (o : Options f) (watched : Bool) (lag : ℕ) (v : Verdict f)
      → IsSound s v
      → IsSound s (sense_lag f o watched lag v)
  unfolding sense_lag
  lag-IsSound s o false lag v h = h
  lag-IsSound s o true lag v h = ground (
    arith,
    raise-IsSound s "write_lag"
        (record v { readings = record v.readings { write_lag_ms = lag / millisecond } }),
  )

  backlog-IsSound :
      (s : Bool) (watched : Bool) (b : ℕ × ℕ) (v : Verdict f)
      → IsSound s v
      → IsSound s (sense_backlog f watched b v)
  unfolding sense_backlog
  backlog-IsSound s false b v h = h
  backlog-IsSound s true b v h = ground (
    arith,
    raise-IsSound s "capture_backlog"
        (record v { readings = record v.readings { capture_backlog = b.0; capture_budget = b.1 } }),
  )

  -- A sample aims at shedding analysis exactly when memory is below its line for analysis, whatever
  -- the other four signals say, and above normal exactly when it reports a signal as over its line.
  pub assess-IsSound :
      (o : Options f) (m : Monitor f) (p : Probes f) → IsSound (is_starved o p.mem) (assess f o m p)
  unfolding assess
  assess-IsSound o m p =
      let s = is_starved o p.mem in
      let v0 = memory-IsSound o p.mem in
      let v1 = disk-IsSound s o p.disk _ v0 in
      let v2 = io-IsSound s o p.io _ v1 in
      let v3 = lag-IsSound s o m.watches_lag p.lag _ v2 in
      backlog-IsSound s m.watches_backlog p.backlog _ v3
