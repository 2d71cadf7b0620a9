-- ===== src/Prelude/Time.antt =====
-- Instants and durations in nanoseconds. Go's zero `time.Time` is 0.
use Prim.Native.Nat.{ℕ, ◌*◌}

abbrev pub second : ℕ
second = 1_000_000_000

abbrev pub minute : ℕ
minute = 60 * second
