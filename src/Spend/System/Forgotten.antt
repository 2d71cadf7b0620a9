-- ===== src/Spend/System/Forgotten.antt =====
-- backend/internal/spend/spend.go: Forget while a flush is under way.
use songguo.Prelude.{◌≡◌, some, String, arith, eq_iff}
use songguo.Prelude.Int.{ℤ, pos, ◌+ℤ◌, ◌-ℤ◌, int_laws}
use songguo.Prelude.Map.{get_or-erase}
use songguo.Spend.{Tracker, get_loaded, forget, settle, pending_of}
use songguo.Spend.System.Views.{total_of-settle, pending_of-settle}

forget_pending : (u : String) (t : Tracker) → pending_of u (forget u t) ≡ pos 0
unfolding forget
forget_pending u t = ground (arith, eq_iff u u, get_or-erase u u (pos 0) t.pending)

base_back : (b d : ℤ) → b +ℤ d +ℤ (pos 0 -ℤ d) ≡ b
base_back b d = omega int_laws

-- A user who is forgotten between the write of `base + delta` and the section after it has a total
-- in memory again, and `Get` answers `base`: the charges that were just written are missing from
-- it, whatever they were.
pub settle-forget :
    (u : String) (base delta : ℤ) (t : Tracker)
    → get_loaded u (settle u base delta (forget u t)) ≡ some base
unfolding get_loaded
settle-forget u base delta t = ground (
  arith,
  eq_iff u u,
  total_of-settle u u base delta (forget u t),
  pending_of-settle u u base delta (forget u t),
  forget_pending u t,
  base_back base delta,
)
