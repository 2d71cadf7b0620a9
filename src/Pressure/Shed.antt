-- ===== src/Pressure/Shed.antt =====
-- backend/internal/pressure/pressure.go: what Capture and Analysis turn off.
use songguo.Prelude.{◌+◌, ◌≡◌, Bool, false, some, arith, if◌then◌else◌}
use songguo.Pressure.{Monitor, capture, analysis}
use songguo.Pressure.Float64.{Floats}

module _ (f : Floats) where
  -- Whatever sheds analysis sheds capture: where `Analysis` answers no, no capture is granted, and
  -- each refusal of a wanted capture is counted once.
  pub capture-analysis :
      (want : Bool) (m : Monitor f)
      → (analysis f (some m)).1 ≡ false
      → capture f want (some m)
        ≡ (some (if want then record m { shed_captures = m.shed_captures + 1 } else m), false)
  unfolding capture analysis
  capture-analysis want m h = ground arith
