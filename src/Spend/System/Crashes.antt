-- ===== src/Spend/System/Crashes.antt =====
-- backend/internal/spend/spend.go: what a crash loses.
use songguo.Prelude.{◌≡◌, ◌≢◌, false, Option, none, some, String, arith}
use songguo.Prelude.Int.{ℤ, ◌+ℤ◌, ◌-ℤ◌, +ℤ_move}
use songguo.Prelude.Map.{Map}
use songguo.Spend.{total_of, pending_of}
use songguo.Spend.System.{System, Reach, boot, disk_of}
use songguo.Spend.System.Balance.{Phase, quiet, got, held, wrote, phase_of, owed, Fits, Owes}
use songguo.Spend.System.Answers.{Reach-IsSafeAt}

-- The increments that are in memory only: between a write and the section that follows it, those
-- that were just written still stand among the pending ones.
pub unsaved : String → System → ℤ
unsaved u s = elim (phase_of u s.flusher) [
  | quiet ↦ pending_of u s.tracker
  | got v ↦ pending_of u s.tracker
  | held b ↦ pending_of u s.tracker
  | wrote b d ↦ pending_of u s.tracker -ℤ d
]

disk-unsaved :
    (t : Option ℤ) (disk p o : ℤ) (f : Phase)
    → Fits t disk f
    → Owes t disk p o
    → disk +ℤ elim f [ quiet ↦ p | got v ↦ p | held b ↦ p | wrote b d ↦ p -ℤ d ] ≡ o
disk-unsaved none disk p o quiet h k = k
disk-unsaved none disk p o (got v) h k = k
disk-unsaved none disk p o (held b) h k = absurd h
disk-unsaved none disk p o (wrote b d) h k = absurd h
disk-unsaved (some t) disk p o quiet h k = ground arith
disk-unsaved (some t) disk p o (got v) h k = ground arith
disk-unsaved (some t) disk p o (held b) h k = ground arith
disk-unsaved (some t) disk p o (wrote b d) h k = ground (arith, +ℤ_move b p d)

-- Whenever the process stops, the store has the spend of a user with a name, whom `Forget` has not
-- been called for, short of exactly the increments that are in memory only: a restart reads
-- everything that was owed less these, and counts nothing twice.
pub disk-owed :
    (start : Map ℤ) (u : String) (s : System)
    → u ≢ ""
    → Reach (boot start) s
    → s.forgotten u ≡ false
    → disk_of u s +ℤ unsaved u s ≡ owed start u s
unfolding unsaved
disk-owed start u s n r k =
    let h = (Reach-IsSafeAt start u n r k).balanced in
    disk-unsaved (total_of u s.tracker) (disk_of u s) (pending_of u s.tracker) (owed start u s)
      (phase_of u s.flusher) h.fits h.owes
