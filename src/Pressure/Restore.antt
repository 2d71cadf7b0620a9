-- ===== src/Pressure/Restore.antt =====
-- backend/internal/pressure/pressure.go: how the level comes back to normal.
use songguo.Prelude.{ℕ, ◌+◌, ◌≤◌, ◌<◌, ◌≡◌, ◌⊎◌, List, [], ◌∷◌, String, arith}
use songguo.Prelude.Int.{pos_part}
use songguo.Pressure.{Level, rank, Options, Probes, Monitor, assess, set, move, sample, run}
use songguo.Pressure.Float64.{Floats}

module _ (f : Floats) where
  -- The level is normal, or the readings are on record as clear since `since` or longer.
  abbrev IsClearing : ℕ → Monitor f → Type 0
  IsClearing since m = (rank m.level ≡ 0) ⊎ ((0 < m.clear_at) × (m.clear_at ≤ since))

  -- No sample of a run aims above normal.
  abbrev pub AllCalm : Options f → Monitor f → List (Probes f) → Type 0
  AllCalm o m [] = Unit {0}
  AllCalm o m (p ∷ ps) = (rank (assess f o m p).target ≡ 0) × AllCalm o (sample f o m p) ps

  move_first-IsClearing :
      (o : Options f) (target : Level) (reason : String) (now : ℕ) (m : Monitor f)
      → rank target ≡ 0
      → 0 < now
      → m.clear_at ≤ now
      → IsClearing now (move f o target reason now m)
  unfolding move set
  move_first-IsClearing o target reason now m h z c = ground arith

  move-IsClearing :
      (o : Options f) (target : Level) (reason : String) (since now : ℕ) (m : Monitor f)
      → rank target ≡ 0
      → IsClearing since m
      → IsClearing since (move f o target reason now m)
  unfolding move set
  move-IsClearing o target reason since now m h c = ground arith

  move_last_level :
      (o : Options f) (target : Level) (reason : String) (since now : ℕ) (m : Monitor f)
      → rank target ≡ 0
      → IsClearing since m
      → since + pos_part o.cooldown ≤ now
      → rank (move f o target reason now m).level ≡ 0
  unfolding move set
  move_last_level o target reason since now m h c t = ground arith

  run-IsClearing :
      (o : Options f) (since : ℕ) (m : Monitor f) (ps : List (Probes f))
      → IsClearing since m
      → AllCalm o m ps
      → IsClearing since (run f o m ps)
  unfolding run sample
  run-IsClearing o since m [] c a = c
  run-IsClearing o since m (p ∷ ps) c a =
      let v = assess f o m p in
      run-IsClearing o since (sample f o m p) ps
        (move-IsClearing o v.target v.reason since p.now
          (record m { last = v.readings; last_over = v.over }) a.0 c)
        a.1

  -- The level is normal again after any run of samples that find no signal over its line, once the
  -- cooldown has passed between the first and the last of them.
  pub calm_restores :
      (o : Options f) (m : Monitor f) (first last : Probes f) (ps : List (Probes f))
      → 0 < first.now
      → m.clear_at ≤ first.now
      → AllCalm o m (first ∷ ps)
      → rank (assess f o (run f o m (first ∷ ps)) last).target ≡ 0
      → first.now + pos_part o.cooldown ≤ last.now
      → rank (sample f o (run f o m (first ∷ ps)) last).level ≡ 0
  unfolding sample run
  calm_restores o m first last ps z c a b t =
      let v = assess f o m first in
      let after : Monitor f = run f o m (first ∷ ps) in
      let w = assess f o after last in
      let start : IsClearing first.now (sample f o m first) =
        move_first-IsClearing o v.target v.reason first.now
          (record m { last = v.readings; last_over = v.over }) a.0 z c in
      move_last_level o w.target w.reason first.now last.now
        (record after { last = w.readings; last_over = w.over }) b
        (run-IsClearing o first.now (sample f o m first) ps start a.1) t
