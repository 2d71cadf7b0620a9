-- ===== src/Pressure/Cooldown.antt =====
-- backend/internal/pressure/pressure.go: when the level rises and when it may fall.
use songguo.Prelude.{ℕ, ◌+◌, ◌≤◌, ◌<◌, ◌≡◌, ◌⊎◌, List, [], ◌∷◌, String, arith}
use songguo.Prelude.Int.{pos_part}
use songguo.Pressure.{Level, rank, Options, Probes, Monitor, assess, set, move, sample, run}
use songguo.Pressure.Float64.{Floats}

module _ (f : Floats) where
  -- The level is at least `low`, and no clear reading from before `since` is on record.
  pub record Holds (low : Level) (since : ℕ) (m : Monitor f) : Type 0 where
    pub high : rank low ≤ rank m.level
    pub fresh : (m.clear_at ≡ 0) ⊎ (since ≤ m.clear_at)

  move-Holds :
      (o : Options f) (low target : Level) (reason : String) (since now : ℕ) (m : Monitor f)
      → Holds low since m
      → since ≤ now
      → now < since + pos_part o.cooldown
      → Holds low since (move f o target reason now m)
  unfolding move set
  move-Holds o low target reason since now m v h k = ground arith

  -- Every sample is taken between two instants.
  abbrev pub AllWithin : ℕ → ℕ → List (Probes f) → Type 0
  AllWithin start end [] = Unit {0}
  AllWithin start end (p ∷ ps) = ((start ≤ p.now) × (p.now < end)) × AllWithin start end ps

  sample-Holds :
      (o : Options f) (low : Level) (since : ℕ) (m : Monitor f) (p : Probes f)
      → Holds low since m
      → since ≤ p.now
      → p.now < since + pos_part o.cooldown
      → Holds low since (sample f o m p)
  unfolding sample
  sample-Holds o low since m p v h k =
      let a = assess f o m p in
      move-Holds o low a.target a.reason since p.now
        (record m { last = a.readings; last_over = a.over })
        (record { high = v.high; fresh = v.fresh }) h k

  run-Holds :
      (o : Options f) (low : Level) (since : ℕ) (m : Monitor f) (ps : List (Probes f))
      → Holds low since m
      → AllWithin since (since + pos_part o.cooldown) ps
      → Holds low since (run f o m ps)
  unfolding run
  run-Holds o low since m [] v w = v
  run-Holds o low since m (p ∷ ps) v w =
      run-Holds o low since (sample f o m p) ps (sample-Holds o low since m p v w.0.0 w.0.1) w.1

  move_up-Holds :
      (o : Options f) (target : Level) (reason : String) (now : ℕ) (m : Monitor f)
      → rank m.level < rank target
      → Holds target now (move f o target reason now m)
  unfolding move set
  move_up-Holds o target reason now m h = ground arith

  raise-Holds :
      (o : Options f) (m : Monitor f) (p : Probes f)
      → rank m.level < rank (assess f o m p).target
      → Holds (assess f o m p).target p.now (sample f o m p)
  unfolding sample
  raise-Holds o m p h =
      let a = assess f o m p in
      move_up-Holds o a.target a.reason p.now (record m { last = a.readings; last_over = a.over }) h

  -- A sample that finds a signal above the level raises it at once, and however the readings go
  -- from then on, no sample within the cooldown takes it below.
  pub raise_lasts :
      (o : Options f) (m : Monitor f) (p : Probes f) (ps : List (Probes f))
      → rank m.level < rank (assess f o m p).target
      → AllWithin p.now (p.now + pos_part o.cooldown) ps
      → rank (assess f o m p).target ≤ rank (run f o m (p ∷ ps)).level
  unfolding run
  raise_lasts o m p ps h w =
      (run-Holds o (assess f o m p).target p.now (sample f o m p) ps (raise-Holds o m p h) w).high
