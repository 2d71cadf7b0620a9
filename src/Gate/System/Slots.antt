-- ===== src/Gate/System/Slots.antt =====
-- Slots under any interleaving: what the gate counts, and what it never exceeds.
use songguo.Prelude.{
  ℕ, ◌+◌, ◌-◌, ◌≤◌, ◌<◌, ◌≡◌, refl, String, arith, ltb, if◌then◌else◌, str_eq, eq_iff, some, none,
  List,
}
use songguo.Prelude.Map.{Map, get_or, get_or-insert}
use songguo.Gate.{Gate, Entry, in_flight_of, limit_of, closed_of, enter, remove_chan, abandon}
use songguo.Gate.Ops.{
  in_flight-release, limit-release-le, in_flight-observe_limit, limit-observe_limit, enter_cases,
  enter_keeps, abandon_keeps,
}
use songguo.Gate.System.Counts.{count_of-bump, count_of-drop, count_of-raise}
use songguo.Gate.System.{
  System, start, count_of, consume, try, receive, cancel, cancel_woken, arrive, finish, Step, Reach,
}

-- At one credential: the gate's count is the number of holders, and neither it nor the limit in
-- force has passed the highest limit that was ever reported.
pub record SlotsAt (d : String) (s : System) : Type 0 where
  pub held : in_flight_of s.gate d ≡ count_of d s.holding
  pub capped : in_flight_of s.gate d ≤ count_of d s.peak
  pub limited : limit_of s.gate d ≤ count_of d s.peak

consume_keeps :
    (g : Gate) (c : String) (rest : List ℕ) (d : String)
    → (in_flight_of (consume g c rest) d ≡ in_flight_of g d)
      × (limit_of (consume g c rest) d ≡ limit_of g d)
unfolding consume in_flight_of limit_of
consume_keeps g c rest d = (refl, refl)

start-SlotsAt : (d : String) → SlotsAt d start
unfolding start songguo.Gate.new in_flight_of limit_of count_of get_or songguo.Prelude.Map.lookup
start-SlotsAt d = record { held = refl; capped = omega arith; limited = omega arith }

module _ (d : String) (s : System) (v : SlotsAt d s) where
  arrive-SlotsAt : (c : String) (n : ℕ) → SlotsAt d (arrive s c n)
  unfolding arrive
  arrive-SlotsAt c n = ground (
    arith,
    in_flight-observe_limit s.gate c n d,
    limit-observe_limit s.gate c n d,
    count_of-raise c d n s.peak,
  )

  try-SlotsAt : (c : String) → SlotsAt d (try s c)
  unfolding try
  try-SlotsAt c = ground (
    arith,
    eq_iff c d,
    enter_cases s.gate c d,
    enter_keeps s.gate c d,
    count_of-bump c d s.holding,
  )

  receive-SlotsAt : (c : String) (rest : List ℕ) → SlotsAt d (receive s c rest)
  unfolding receive consume in_flight_of limit_of
  receive-SlotsAt c rest = record { held = v.held; capped = v.capped; limited = v.limited }

  cancel-SlotsAt : (c : String) (ch : ℕ) → SlotsAt d (cancel s c ch)
  unfolding cancel
  cancel-SlotsAt c ch = ground (arith, abandon_keeps s.gate c ch d)

  finish-SlotsAt : (c : String) → SlotsAt d (finish s c)
  unfolding finish
  finish-SlotsAt c = ground (
    arith,
    in_flight-release s.gate c d,
    limit-release-le s.gate c d,
    count_of-drop c d s.holding,
  )

cancel_woken-SlotsAt :
    (d : String) (s : System) (c : String) (ch : ℕ) (rest : List ℕ)
    → SlotsAt d s
    → SlotsAt d (cancel_woken s c ch rest)
unfolding cancel_woken
cancel_woken-SlotsAt d s c ch rest v =
    ground (arith, abandon_keeps (consume s.gate c rest) c ch d, consume_keeps s.gate c rest d)

Step-SlotsAt : (d : String) {s t : System} → Step s t → SlotsAt d s → SlotsAt d t
Step-SlotsAt d {s} (Step.arrives c n _) v = arrive-SlotsAt d s v c n
Step-SlotsAt d {s} (Step.tries c _) v = try-SlotsAt d s v c
Step-SlotsAt d {s} (Step.receives c ch rest _) v = receive-SlotsAt d s v c rest
Step-SlotsAt d {s} (Step.cancels c ch rest _) v = cancel-SlotsAt d s v c ch
Step-SlotsAt d {s} (Step.cancels_woken c ch rest _ _) v = cancel_woken-SlotsAt d s c ch rest v
Step-SlotsAt d {s} (Step.finishes c _) v = finish-SlotsAt d s v c

-- From the empty gate, whatever goroutines do in whatever order, at every credential the gate's
-- count of requests in flight is the number of slots that are held, and neither this count nor the
-- limit in force exceeds the highest limit that has been reported for the credential.
pub Reach-SlotsAt : (d : String) {s : System} → Reach start s → SlotsAt d s
Reach-SlotsAt d Reach.here = start-SlotsAt d
Reach-SlotsAt d (Reach.next r st) = Step-SlotsAt d st (Reach-SlotsAt d r)
