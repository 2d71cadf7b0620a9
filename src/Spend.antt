-- ===== src/Spend.antt =====
-- backend/internal/spend/spend.go: what each user has spent, as running totals in memory over a
-- store. An amount is a whole number of a small unit of money, where the source has float64. Each
-- function is one critical section of the tracker's mutex, or the code between two of them.
pub mod Flush
pub mod System
pub mod Tests
use songguo.Prelude.{
  Bool, true, false, ◌||◌, not, Option, none, some, List, [], ◌∷◌, String, if◌then◌else◌, str_eq,
}
use songguo.Prelude.Int.{ℤ, pos, ◌+ℤ◌, ◌-ℤ◌, eqb_ℤ}
use songguo.Prelude.Map.{Map, lookup, insert, erase, get_or}

-- `Tracker`, without its store and logger.
pub record Tracker : Type 0 where
  pub total : Map ℤ
  pub pending : Map ℤ

-- `New`
abbrev pub new : Tracker
new = record { total = []; pending = [] }

-- `t.pending[userID]`
abbrev pub pending_of : String → Tracker → ℤ
pending_of user t = get_or user (pos 0) t.pending

-- `t.total[userID]`, and whether it is there.
abbrev pub total_of : String → Tracker → Option ℤ
total_of user t = lookup user t.total

abbrev pub is_zero : ℤ → Bool
is_zero d = eqb_ℤ d (pos 0)

abbrev pub put_pending : String → ℤ → Tracker → Tracker
put_pending user p t = record t { pending = insert user p t.pending }

-- `Add`
unfoldable pub add : String → ℤ → Tracker → Tracker
add user delta t =
    if str_eq user "" || is_zero delta then t else put_pending user (pending_of user t +ℤ delta) t

-- What `LoadSpend` answers: an error, no row, or the row's total.
pub data Loaded : Type 0 where
  failed : Loaded
  missing : Loaded
  row : ℤ → Loaded

-- `load`, where `none` is an error.
pub load : Loaded → Option ℤ
load failed = none
load missing = some (pos 0)
load (row total) = some total

-- `Get`, the first critical section: the answer, if the total is in memory.
unfoldable pub get_loaded : String → Tracker → Option ℤ
get_loaded user t = elim (total_of user t) [
  | none ↦ none
  | some base ↦ some (base +ℤ pending_of user t)
]

abbrev pub put_total : String → ℤ → Tracker → Tracker
put_total user base t = record t { total = insert user base t.total }

-- The second critical section of `Get`, and the one of `Flush` after `load`: what was loaded counts
-- only if the total is still missing. The result is the total that is then in memory.
unfoldable pub adopt : String → ℤ → Tracker → Tracker × ℤ
adopt user stored t = elim (total_of user t) [
  | none ↦ (put_total user stored t, stored)
  | some base ↦ (t, base)
]

-- `Get`, from the second lock on.
unfoldable pub get_stored : String → ℤ → Tracker → Tracker × ℤ
unfolding adopt
get_stored user stored t = ((adopt user stored t).0, (adopt user stored t).1 +ℤ pending_of user t)

-- `Flush`: the users with an increment to write, in the order of the map.
dirty_in : Map ℤ → List String
dirty_in [] = []
dirty_in ((user, d) ∷ m) = let rest = dirty_in m in if is_zero d then rest else user ∷ rest

pub dirty : Tracker → List String
unfolding dirty_in
dirty t = dirty_in t.pending

abbrev pub drop_pending : String → Tracker → Tracker
drop_pending user t = record t { pending = erase user t.pending }

-- `Flush`, the last critical section for a user, after `base + delta` was saved.
unfoldable pub settle : String → ℤ → ℤ → Tracker → Tracker
settle user base delta t =
    let left = pending_of user t -ℤ delta in
    let saved = put_total user (base +ℤ delta) t in
    if is_zero left then drop_pending user saved else put_pending user left saved

-- `Forget`
unfoldable pub forget : String → Tracker → Tracker
forget user t = record t { total = erase user t.total; pending = erase user t.pending }
