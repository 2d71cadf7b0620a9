-- ===== src/Ledger/Lag.antt =====
-- backend/internal/ledger/ledger.go: what WriteLag reports.
use songguo.Prelude.{ℕ, ◌-◌, ◌≡◌, List, [], ◌∷◌, arith, ltb, ◌==◌, if◌then◌else◌}
use songguo.Ledger.{Op, Writer, Answer, finish_apply, write_lag}

-- Operations that were applied, with the instants at which they were done.
pub record Applied : Type 0 where
  pub op : Op
  pub answer : Answer
  pub at : ℕ

pub apply_all : List Applied → Writer → Writer
apply_all [] w = w
apply_all (a ∷ rest) w = apply_all rest (finish_apply a.op a.answer a.at w)

-- The longest time that one of them took from `Submit` on; what has no submission time counts for 0.
pub slowest : List Applied → ℕ
slowest [] = 0
slowest (a ∷ rest) =
    let m = slowest rest in
    let lag = if a.op.submitted == 0 then 0 else a.at - a.op.submitted in
    if ltb m lag then lag else m

apply_all_peak :
    (list : List Applied) (w : Writer)
    → (apply_all list w).lag_peak
      ≡ (if ltb w.lag_peak (slowest list) then slowest list else w.lag_peak)
unfolding apply_all slowest finish_apply
apply_all_peak [] w = ground arith
apply_all_peak (a ∷ rest) w =
    ground (arith, apply_all_peak rest (finish_apply a.op a.answer a.at w))

finish_idle :
    (op : Op) (answer : Answer) (now : ℕ) (w : Writer)
    → w.applying ≡ 0
    → (finish_apply op answer now w).applying ≡ 0
unfolding finish_apply
finish_idle op answer now w e = ground arith

apply_all_idle :
    (list : List Applied) (w : Writer) → w.applying ≡ 0 → (apply_all list w).applying ≡ 0
unfolding apply_all
apply_all_idle [] w e = e
apply_all_idle (a ∷ rest) w e =
    apply_all_idle rest (finish_apply a.op a.answer a.at w) (finish_idle a.op a.answer a.at w e)

-- Between writes, `WriteLag` reports the slowest of the operations applied since its last call,
-- however many these are and whatever they answered.
pub write_lag_slowest :
    (list : List Applied) (w : Writer) (last now : ℕ)
    → w.applying ≡ 0
    → (write_lag now (apply_all list (write_lag last w).0)).1 ≡ slowest list
unfolding write_lag
write_lag_slowest list w last now e = ground (
  arith,
  apply_all_peak list (record w { lag_peak = 0 }),
  apply_all_idle list (record w { lag_peak = 0 }),
)
