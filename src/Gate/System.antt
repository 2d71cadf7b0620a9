-- ===== src/Gate/System.antt =====
-- Goroutines that share one gate (backend/internal/concurrency/gate.go), as a step relation: each
-- step is one critical section of one goroutine, and any interleaving of them is a run.
-- `retrying` counts, for each credential, the goroutines that are about to run a round of
-- `Acquire`'s loop, and `holding` those whose release func has not been called. A goroutine that
-- waits is its channel. `peak` remembers the highest limit that was ever reported.
pub mod Counts
pub mod Slots
pub mod Wakeups
pub mod Tests
use songguo.Prelude.{
  ℕ, suc, ◌+◌, ◌-◌, ◌<◌, ◌≡◌, Option, none, some, List, [], String, ltb, if◌then◌else◌,
}
use songguo.Prelude.Map.{Map, insert, get_or}
use songguo.Gate.{
  Gate, Entry, admitted, queued, in_flight_of, queue_of, closed_of, new, observe_limit, enter,
  release, remove_chan, abandon,
}

pub record System : Type 0 where
  pub gate : Gate
  pub retrying : Map ℕ
  pub holding : Map ℕ
  pub peak : Map ℕ

pub start : System
start = record { gate = new; retrying = []; holding = []; peak = [] }

pub count_of : String → Map ℕ → ℕ
count_of c m = get_or c 0 m

pub bump : String → Map ℕ → Map ℕ
bump c m = insert c (count_of c m + 1) m

pub drop : String → Map ℕ → Map ℕ
drop c m = insert c (count_of c m - 1) m

pub raise : String → ℕ → Map ℕ → Map ℕ
raise c n m = if ltb (count_of c m) n then insert c n m else m

-- `Acquire` reports its limit once, and goes on to its loop.
pub arrive : System → String → ℕ → System
arrive s c limit = record s {
  gate = observe_limit s.gate c limit;
  retrying = bump c s.retrying;
  peak = raise c limit s.peak;
}

settle : System → String → Gate × Entry → System
settle s c (g, admitted) = record s {
  gate = g;
  retrying = drop c s.retrying;
  holding = bump c s.holding;
}
settle s c (g, queued ch) = record s { gate = g; retrying = drop c s.retrying }

-- One round of the loop.
pub try : System → String → System
unfolding settle
try s c = settle s c (enter s.gate c)

-- The closed channels of a credential, one of them received from or dropped.
pub consume : Gate → String → List ℕ → Gate
consume g c rest = record g { closed = insert c rest g.closed }

-- `case <-ch`: the goroutine receives from its closed channel.
pub receive : System → String → List ℕ → System
receive s c rest = record s { gate = consume s.gate c rest; retrying = bump c s.retrying }

-- `case <-ctx.Done()` while the channel is still queued.
pub cancel : System → String → ℕ → System
cancel s c ch = record s { gate = abandon s.gate c ch }

-- The same when the channel has been closed meanwhile: it is never received from.
pub cancel_woken : System → String → ℕ → List ℕ → System
cancel_woken s c ch rest = record s { gate = abandon (consume s.gate c rest) c ch }

pub finish : System → String → System
finish s c = record s { gate = release s.gate c; holding = drop c s.holding }

pub data Step (s : System) : System → Type 0 where
  arrives : (c : String) (limit : ℕ) → 0 < limit → Step s (arrive s c limit)
  tries : (c : String) → 0 < count_of c s.retrying → Step s (try s c)
  receives :
      (c : String) (ch : ℕ) (rest : List ℕ)
      → remove_chan ch (closed_of s.gate c) ≡ some rest
      → Step s (receive s c rest)
  cancels :
      (c : String) (ch : ℕ) (rest : List ℕ)
      → remove_chan ch (queue_of s.gate c) ≡ some rest
      → Step s (cancel s c ch)
  cancels_woken :
      (c : String) (ch : ℕ) (rest : List ℕ)
      → remove_chan ch (closed_of s.gate c) ≡ some rest
      → remove_chan ch (queue_of s.gate c) ≡ none
      → Step s (cancel_woken s c ch rest)
  finishes : (c : String) → 0 < count_of c s.holding → Step s (finish s c)

pub data Reach (s : System) : System → Type 0 where
  here : Reach s s
  next : {t u : System} → Reach s t → Step t u → Reach s u
