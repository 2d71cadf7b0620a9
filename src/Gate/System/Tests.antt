-- ===== src/Gate/System/Tests.antt =====
-- Runs of the gate on small states.
use songguo.Prelude.{◌≤◌, ◌<◌, ◌≡◌, refl, inr, false, [], ◌∷◌, arith}
use songguo.Prelude.Map.{lookup, insert, erase, get_or}
use songguo.Gate.{
  Gate, Releaser, queued, in_flight_of, queue_of, limit_of, closed_of, enter, release, give_back,
  wake_one,
}
use songguo.Gate.System.{System, start, count_of, arrive, finish, Step, Reach}
use songguo.Gate.System.Slots.{SlotsAt, Reach-SlotsAt}
use songguo.Gate.System.Wakeups.{CoveredAt, TrackedAt, Step-CoveredAt, release_strands_woken}

-- One request in flight to "k" under limit 1, and channel 0 queued behind it.
abbrev full_gate : Gate
full_gate = record {
  in_flight = ("k", 1) ∷ [];
  waiters = ("k", 0 ∷ []) ∷ [];
  limits = ("k", 1) ∷ [];
  closed = [];
  next_chan = 1;
}

abbrev full : System
full = record { gate = full_gate; retrying = []; holding = ("k", 1) ∷ []; peak = ("k", 1) ∷ [] }

-- The second of two slots is about to come back; channel 0 was woken by the first.
abbrev woken_gate : Gate
woken_gate = record {
  in_flight = ("k", 1) ∷ [];
  waiters = [];
  limits = ("k", 2) ∷ [];
  closed = ("k", 0 ∷ []) ∷ [];
  next_chan = 1;
}

release_serves_queue : queue_of (release full_gate "k") "k" ≡ []
unfolding release give_back wake_one in_flight_of queue_of get_or lookup insert erase
release_serves_queue = refl

Reach-SlotsAt_example : SlotsAt "k" (arrive start "k" 2)
Reach-SlotsAt_example = Reach-SlotsAt "k" (Reach.next Reach.here (Step.arrives "k" 2 (omega arith)))

holding_full : 0 < count_of "k" full.holding
unfolding count_of get_or lookup
holding_full = omega arith

tracked_full : TrackedAt "k" full
unfolding lookup
tracked_full e = cc

covered_full : CoveredAt "k" full
unfolding limit_of in_flight_of closed_of count_of get_or lookup
covered_full = inr (omega arith)

Step-CoveredAt_example : CoveredAt "k" (finish full "k")
Step-CoveredAt_example =
    Step-CoveredAt "k" (Step.finishes "k" holding_full) tracked_full covered_full

one_in_flight : in_flight_of woken_gate "k" ≤ 1
unfolding in_flight_of get_or lookup
one_in_flight = omega arith

nobody_queued : queue_of woken_gate "k" ≡ []
unfolding queue_of get_or lookup
nobody_queued = refl

release_strands_woken_example :
    ((enter (release woken_gate "k") "k").1 ≡ queued (release woken_gate "k").next_chan)
    × (in_flight_of (enter (release woken_gate "k") "k").0 "k" ≡ 0)
release_strands_woken_example = release_strands_woken woken_gate "k" one_in_flight nobody_queued

abbrev held : Releaser
held = record { credential = "k"; fired = false }
