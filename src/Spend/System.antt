-- ===== src/Spend/System.antt =====
-- backend/internal/spend/spend.go: goroutines at one tracker and its store. A step is one critical
-- section of the mutex or one call of the store; between two steps of a goroutine any others may
-- run. `Run` is the one caller of `Flush`; `Add`, `Get` and `Forget` are called by any number of requests.
pub mod Views
pub mod Balance
pub mod Answers
pub mod Crashes
pub mod Forgotten
use songguo.Prelude.{
  ℕ, ◌≡◌, Bool, true, false, Option, none, some, List, [], ◌∷◌, String, if◌then◌else◌, ◌==◌, ◌||◌,
  str_eq,
}
use songguo.Prelude.Int.{ℤ, pos, ◌+ℤ◌}
use songguo.Prelude.Map.{Map, lookup, insert, get_or}
use songguo.Spend.{
  Tracker, Loaded, missing, row, load, add, pending_of, total_of, adopt, get_stored, dirty, settle,
  forget,
}

-- Where the flusher stands: between two rounds, before a user, with the stored total of a user, with
-- the total in memory, with the increment to write, and after the write.
pub data Flusher : Type 0 where
  idle : Flusher
  before : List String → Flusher
  loaded : String → ℤ → List String → Flusher
  based : String → ℤ → List String → Flusher
  writing : String → ℤ → ℤ → List String → Flusher
  saved : String → ℤ → ℤ → List String → Flusher

-- `disk` is the table behind the store. `readers` are the calls of `Get` between their two sections,
-- with the user and the total that was loaded. `charged` records what `Add` was given, for each user, and
-- `forgotten` the users whom `Forget` has been called for.
pub record System : Type 0 where
  pub tracker : Tracker
  pub disk : Map ℤ
  pub flusher : Flusher
  pub readers : ℕ → Option (String × ℤ)
  pub charged : Map ℤ
  pub forgotten : String → Bool

abbrev pub disk_of : String → System → ℤ
disk_of user s = get_or user (pos 0) s.disk

abbrev pub charged_of : String → System → ℤ
charged_of user s = get_or user (pos 0) s.charged

-- What `LoadSpend` answers when it does not fail.
abbrev pub read_row : String → Map ℤ → Loaded
read_row user disk = elim (lookup user disk) [ none ↦ missing | some v ↦ row v ]

abbrev pub set_reader :
    ℕ → Option (String × ℤ) → (ℕ → Option (String × ℤ)) → ℕ → Option (String × ℤ)
set_reader g r readers h = if g == h then r else readers h

abbrev pub charge : String → ℤ → System → System
charge user delta s = record s {
  tracker = add user delta s.tracker;
  charged =
      if str_eq user "" then s.charged else insert user (charged_of user s +ℤ delta) s.charged;
}

abbrev pub read : ℕ → String → ℤ → System → System
read g user stored s = record s { readers = set_reader g (some (user, stored)) s.readers }

abbrev pub answer : ℕ → String → ℤ → System → System
answer g user stored s = record s {
  tracker = (get_stored user stored s.tracker).0;
  readers = set_reader g none s.readers;
}

abbrev pub at : Flusher → System → System
at f s = record s { flusher = f }

abbrev pub adopted : String → ℤ → List String → System → System
adopted user stored ids s = record s {
  tracker = (adopt user stored s.tracker).0;
  flusher = based user (adopt user stored s.tracker).1 ids;
}

abbrev pub save : String → ℤ → ℤ → List String → System → System
save user base delta ids s = record s {
  disk = insert user (base +ℤ delta) s.disk;
  flusher = saved user base delta ids;
}

abbrev pub settled : String → ℤ → ℤ → List String → System → System
settled user base delta ids s = record s {
  tracker = settle user base delta s.tracker;
  flusher = before ids;
}

abbrev pub forgot : String → System → System
forgot user s = record s {
  tracker = forget user s.tracker;
  forgotten = λ j. str_eq user j || s.forgotten j;
}

pub data Step : System → System → Type 0 where
  -- `Add`
  adds : (user : String) (delta : ℤ) (s : System) → Step s (charge user delta s)
  -- `Get`: the total is missing, and the store has answered.
  reads :
      (g : ℕ) (user : String) (stored : ℤ) (s : System)
      → load (read_row user s.disk) ≡ some stored
      → Step s (read g user stored s)
  -- `Get`, from the second lock on.
  answers :
      (g : ℕ) (user : String) (stored : ℤ) (s : System)
      → s.readers g ≡ some (user, stored)
      → Step s (answer g user stored s)
  -- `Forget`
  forgets : (user : String) (s : System) → Step s (forgot user s)
  -- `Flush` collects the users with increments.
  collects : (s : System) → s.flusher ≡ idle → Step s (at (before (dirty s.tracker)) s)
  -- The total of the next user is in memory.
  finds :
      (user : String) (base : ℤ) (ids : List String) (s : System)
      → s.flusher ≡ before (user ∷ ids)
      → total_of user s.tracker ≡ some base
      → Step s (at (based user base ids) s)
  -- It is missing, and the store has answered.
  loads :
      (user : String) (stored : ℤ) (ids : List String) (s : System)
      → s.flusher ≡ before (user ∷ ids)
      → load (read_row user s.disk) ≡ some stored
      → Step s (at (loaded user stored ids) s)
  -- It is missing, and the store has failed.
  misses :
      (user : String) (ids : List String) (s : System)
      → s.flusher ≡ before (user ∷ ids)
      → Step s (at (before ids) s)
  adopts :
      (user : String) (stored : ℤ) (ids : List String) (s : System)
      → s.flusher ≡ loaded user stored ids
      → Step s (adopted user stored ids s)
  -- The increment is read.
  takes :
      (user : String) (base : ℤ) (ids : List String) (s : System)
      → s.flusher ≡ based user base ids
      → Step s (at (writing user base (pending_of user s.tracker) ids) s)
  -- `SaveSpend` writes, or fails and writes nothing.
  saves :
      (user : String) (base delta : ℤ) (ids : List String) (s : System)
      → s.flusher ≡ writing user base delta ids
      → Step s (save user base delta ids s)
  fails :
      (user : String) (base delta : ℤ) (ids : List String) (s : System)
      → s.flusher ≡ writing user base delta ids
      → Step s (at (before ids) s)
  settles :
      (user : String) (base delta : ℤ) (ids : List String) (s : System)
      → s.flusher ≡ saved user base delta ids
      → Step s (settled user base delta ids s)
  -- `Flush` returns.
  returns : (s : System) → s.flusher ≡ before [] → Step s (at idle s)

-- The steps from a state.
pub data Reach (s : System) : System → Type 0 where
  here : Reach s s
  next : {t u : System} → Reach s t → Step t u → Reach s u

-- A process that has just started on a table.
abbrev pub boot : Map ℤ → System
boot disk = record {
  tracker = record { total = []; pending = [] };
  disk = disk;
  flusher = idle;
  readers = λ g. none;
  charged = [];
  forgotten = λ j. false;
}
