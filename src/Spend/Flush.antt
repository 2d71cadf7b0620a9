-- ===== src/Spend/Flush.antt =====
-- backend/internal/spend/spend.go: a whole Flush, with nobody else at the tracker.
pub mod Saves
pub mod Rounds
use songguo.Prelude.{Bool, true, false, Option, none, some, List, [], ◌∷◌, String, if◌then◌else◌}
use songguo.Prelude.Int.{ℤ, ◌+ℤ◌}
use songguo.Prelude.Map.{Map, lookup, insert}
use songguo.Spend.{
  Tracker, Loaded, failed, missing, row, load, total_of, pending_of, adopt, dirty, settle,
}

-- The users for whom the store fails.
pub record Faults : Type 0 where
  pub load_fails : String → Bool
  pub save_fails : String → Bool

-- The tracker, the table behind the store, and whether `firstErr` is set.
pub record Round : Type 0 where
  pub tracker : Tracker
  pub disk : Map ℤ
  pub error : Bool

-- `LoadSpend`
abbrev pub load_spend : Faults → String → Map ℤ → Loaded
load_spend o user disk =
    if o.load_fails user
    then failed
    else elim (lookup user disk) [ none ↦ missing | some v ↦ row v ]

-- The total of a user, loaded if need be; `none` where the store fails.
pub base_for : Faults → String → Round → Option (Tracker × ℤ)
unfolding load adopt
base_for o user r = elim (total_of user r.tracker) [
  | some base ↦ some (r.tracker, base)
  | none ↦ elim (load (load_spend o user r.disk)) [
    | none ↦ none
    | some stored ↦ some (adopt user stored r.tracker)
  ]
]

-- `SaveSpend`, and the section after it.
pub write : Faults → String → ℤ → Tracker → Round → Round
unfolding settle
write o user base t r =
    let delta = pending_of user t in
    if o.save_fails user
    then record r { tracker = t; error = true }
    else record r { tracker = settle user base delta t; disk = insert user (base +ℤ delta) r.disk }

-- The body of the loop.
pub flush_user : Faults → String → Round → Round
unfolding base_for write
flush_user o user r = elim (base_for o user r) [
  | none ↦ record r { error = true }
  | some (t, base) ↦ write o user base t r
]

pub flush_users : Faults → List String → Round → Round
flush_users o [] r = r
flush_users o (user ∷ ids) r = flush_users o ids (flush_user o user r)

-- `Flush`: the tracker, the table and whether it returns an error.
pub flush : Faults → Tracker → Map ℤ → Round
unfolding flush_users dirty
flush o t disk = flush_users o (dirty t) (record { tracker = t; disk = disk; error = false })
