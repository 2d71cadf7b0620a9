-- ===== src/Gate.antt =====
-- backend/internal/concurrency/gate.go: the gate's state and the bodies of its critical sections.
-- A channel is a number. `next_chan` is the identity that the next `make(chan struct{})` gets, and
-- `closed` holds, for each credential, the channels that were closed and not yet received from.
pub mod Views
pub mod Ops
pub mod Reports
pub mod System
use songguo.Prelude.{
  ℕ, suc, ◌+◌, ◌-◌, Bool, true, false, ◌||◌, not, Option, none, some, List, [], ◌∷◌, ◌++◌, String,
  ltb, leb, ◌==◌, if◌then◌else◌, length, str_eq,
}
use songguo.Prelude.Int.{ℤ, pos, leb_ℤ}
use songguo.Prelude.Map.{Map, lookup, insert, erase, get_or}

pub record Gate : Type 0 where
  pub in_flight : Map ℕ
  pub waiters : Map (List ℕ)
  pub limits : Map ℕ
  pub closed : Map (List ℕ)
  pub next_chan : ℕ

-- `New`
pub new : Gate
new = record { in_flight = []; waiters = []; limits = []; closed = []; next_chan = 0 }

-- `g.inFlight[c]`, `g.waiters[c]`, `g.limits[c]`: a missing key reads as the zero value.
pub in_flight_of : Gate → String → ℕ
in_flight_of g c = get_or c 0 g.in_flight

pub queue_of : Gate → String → List ℕ
queue_of g c = get_or c [] g.waiters

pub limit_of : Gate → String → ℕ
limit_of g c = get_or c 0 g.limits

pub closed_of : Gate → String → List ℕ
closed_of g c = get_or c [] g.closed

abbrev pub is_empty : List ℕ → Bool
is_empty [] = true
is_empty (x ∷ xs) = false

-- Writes a queue back, and deletes the key of an empty one.
pub put_queue : String → List ℕ → Map (List ℕ) → Map (List ℕ)
put_queue c q m = let m' = insert c q m in if is_empty q then erase c m' else m'

pub wake_head : Gate → String → List ℕ → Gate
unfolding put_queue
wake_head g c [] = g
wake_head g c (next ∷ rest) = record g {
  waiters = put_queue c rest g.waiters;
  closed = insert c (next ∷ get_or c [] g.closed) g.closed;
}

-- `wakeOneLocked`
pub wake_one : Gate → String → Gate
unfolding wake_head queue_of
wake_one g c = wake_head g c (queue_of g c)

-- `for i := 0; i < n && len(g.waiters[c]) > 0; i++ { g.wakeOneLocked(c) }`
pub wake_up_to : ℕ → Gate → String → Gate
wake_up_to ℕ.zero g c = g
wake_up_to (suc n) g c = elim (is_empty (queue_of g c)) [
  | true ↦ g
  | false ↦ wake_up_to n (wake_one g c) c
]

-- `observeLimitLocked`
pub observe_limit : Gate → String → ℕ → Gate
observe_limit g c limit =
    let g' = record g { limits = insert c limit g.limits } in
    elim (lookup c g.limits) [
      | none ↦ g'
      | some prev ↦ if leb limit prev then g' else wake_up_to (limit - prev) g' c
    ]

-- The early return of `Acquire`: no limit, or no credential, is not tracked.
pub is_unlimited : String → ℤ → Bool
is_unlimited c limit = leb_ℤ limit (pos 0) || str_eq c ""

pub data Entry : Type 0 where
  admitted : Entry
  queued : ℕ → Entry

-- One round of `Acquire`'s loop: take a slot, or join the queue on a new channel.
pub enter : Gate → String → Gate × Entry
unfolding in_flight_of limit_of queue_of
enter g c =
    if ltb (in_flight_of g c) (limit_of g c)
    then (record g { in_flight = insert c (in_flight_of g c + 1) g.in_flight }, admitted)
    else (
      record g {
        waiters = insert c (queue_of g c ++ g.next_chan ∷ []) g.waiters;
        next_chan = g.next_chan + 1;
      },
      queued g.next_chan,
    )

-- The slot that `release` gives back; the last one forgets the limit when nobody is queued.
pub give_back : Gate → String → Gate
unfolding in_flight_of queue_of
give_back g c =
    if ltb 1 (in_flight_of g c)
    then record g { in_flight = insert c (in_flight_of g c - 1) g.in_flight }
    else record g {
      in_flight = erase c g.in_flight;
      limits = if is_empty (queue_of g c) then erase c g.limits else g.limits;
    }

-- `release`
pub release : Gate → String → Gate
release g c = wake_one (give_back g c) c

-- The queue without its first occurrence of a channel, if it has one.
pub remove_chan : ℕ → List ℕ → Option (List ℕ)
remove_chan ch [] = none
remove_chan ch (x ∷ q) =
    if x == ch then some q else elim (remove_chan ch q) [ none ↦ none | some r ↦ some (x ∷ r) ]

-- `abandon`
pub abandon : Gate → String → ℕ → Gate
abandon g c ch = elim (remove_chan ch (queue_of g c)) [
  | none ↦ wake_one g c
  | some rest ↦ record g { waiters = put_queue c rest g.waiters }
]

-- `releaser`: the closure with its `sync.Once`.
pub record Releaser : Type 0 where
  pub credential : String
  pub fired : Bool

pub call_release : Gate → Releaser → Gate × Releaser
call_release g r = if r.fired then (g, r) else (release g r.credential, record r { fired = true })

pub record Occupancy : Type 0 where
  pub running : ℕ
  pub waiting : ℕ

-- The two loops of `Stats`.
pub stats_running : Gate → Map ℕ → Map Occupancy → Map Occupancy
stats_running g [] out = out
stats_running g ((c, n) ∷ m) out =
    stats_running g m (insert c (record { running = n; waiting = length (queue_of g c) }) out)

abbrev is_seen : String → Map Occupancy → Bool
is_seen c out = elim (lookup c out) [ none ↦ false | some _ ↦ true ]

pub stats_waiting : Map (List ℕ) → Map Occupancy → Map Occupancy
stats_waiting [] out = out
stats_waiting ((c, q) ∷ m) out = stats_waiting m (
    if is_seen c out || is_empty q
    then out
    else insert c (record { running = 0; waiting = length q }) out)

pub stats : Gate → Map Occupancy
unfolding stats_running stats_waiting
stats g = stats_waiting g.waiters (stats_running g g.in_flight [])
