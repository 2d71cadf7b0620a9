-- ===== src/Pressure/Float64.antt =====
-- What backend/internal/pressure/pressure.go uses of float64.
use songguo.Prelude.{ℕ, Bool}

-- float64 without NaN: constants, the conversion of a uint64, and the operators `*`, `/` and `<`.
pub record Floats : Type 1 where
  pub Float : Type 0
  pub of_nat : ℕ → Float
  pub of_uint64 : ℕ → Float
  pub mul : Float → Float → Float
  pub div : Float → Float → Float
  pub lt : Float → Float → Bool
