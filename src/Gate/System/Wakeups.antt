-- ===== src/Gate/System/Wakeups.antt =====
-- Wake-ups under any interleaving: who is queued although the credential has room.
use songguo.Prelude.{
  ℕ, suc, ◌+◌, ◌≤◌, ◌<◌, ◌≡◌, refl, ◌⊎◌, inl, inr, none, some, List, [], ◌∷◌, String, arith,
  if◌then◌else◌, length, str_eq, eq_iff, Bool-cases, Option-cases, subst, sym,
}
use songguo.Prelude.Map.{lookup, get_or-insert, get_or-erase}
use songguo.Gate.{
  Gate, queued, in_flight_of, queue_of, limit_of, closed_of, wake_one, enter, give_back, release,
  remove_chan,
}
use songguo.Gate.Views.{queue-wake_one, closed-wake_one, in_flight-wake_one, limit-wake_one}
use songguo.Gate.Ops.{
  in_flight-release, limit-release-le, queue-release, closed-release, in_flight-observe_limit,
  limit-observe_limit, observe_limit_ne, observe_limit_wakes, queue-observe_limit_nil, enter_cases,
  enter_keeps, abandon_cases, abandon_keeps, in_flight-give_back,
}
use songguo.Gate.System.Counts.{count_of-bump, count_of-drop}
use songguo.Gate.System.{
  System, count_of, consume, try, receive, cancel, cancel_woken, arrive, finish, Step,
}

-- Somebody is queued at the credential only if it is full, counting as taken each slot that a woken
-- or a retrying goroutine may still take.
abbrev pub CoveredAt : String → System → Type 0
CoveredAt d s =
    (queue_of s.gate d ≡ [])
    ⊎ (limit_of s.gate d
        ≤ in_flight_of s.gate d + length (closed_of s.gate d) + count_of d s.retrying)

-- While anybody is queued at the credential, its limit is on record.
abbrev pub TrackedAt : String → System → Type 0
TrackedAt d s = lookup d s.gate.limits ≡ none → queue_of s.gate d ≡ []

length-remove_chan :
    (ch : ℕ) (q rest : List ℕ) → remove_chan ch q ≡ some rest → length q ≡ suc (length rest)
unfolding remove_chan
length-remove_chan ch [] rest h = ground arith
length-remove_chan ch (x ∷ q) rest h = elim (Option-cases (remove_chan ch q)) [
  | inl e ↦ ground arith
  | inr (r, e) ↦ ground (arith, length-remove_chan ch q r e)
]

consume_view :
    (g : Gate) (c : String) (rest : List ℕ) (d : String)
    → (in_flight_of (consume g c rest) d ≡ in_flight_of g d)
      × (limit_of (consume g c rest) d ≡ limit_of g d)
      × (queue_of (consume g c rest) d ≡ queue_of g d)
      × (closed_of (consume g c rest) d ≡ (if str_eq c d then rest else closed_of g d))
unfolding consume in_flight_of limit_of queue_of closed_of
consume_view g c rest d = (refl, refl, refl, get_or-insert c d rest [] g.closed)

module _ (d : String) (s : System) (v : CoveredAt d s) where
  arrive-CoveredAt_self : (n : ℕ) → TrackedAt d s → CoveredAt d (arrive s d n)
  unfolding arrive
  arrive-CoveredAt_self n t = ground (
    arith,
    eq_iff d d,
    t,
    observe_limit_wakes s.gate d n,
    queue-observe_limit_nil s.gate d n,
    in_flight-observe_limit s.gate d n d,
    limit-observe_limit s.gate d n d,
    count_of-bump d d s.retrying,
  )

  arrive-CoveredAt : (c : String) (n : ℕ) → TrackedAt d s → CoveredAt d (arrive s c n)
  unfolding arrive
  arrive-CoveredAt c n t = elim (Bool-cases (str_eq c d)) [
    | inl e ↦
        subst (λ x. CoveredAt d (arrive s x n)) (sym ((eq_iff c d).0 e)) (arrive-CoveredAt_self n t)
    | inr e ↦ ground (
      arith,
      observe_limit_ne s.gate c n d e,
      in_flight-observe_limit s.gate c n d,
      limit-observe_limit s.gate c n d,
      count_of-bump c d s.retrying,
    )
  ]

  try-CoveredAt : (c : String) → 0 < count_of c s.retrying → CoveredAt d (try s c)
  unfolding try
  try-CoveredAt c h = ground (
    arith,
    eq_iff c d,
    enter_cases s.gate c d,
    enter_keeps s.gate c d,
    count_of-drop c d s.retrying,
  )

  receive-CoveredAt :
      (c : String) (ch : ℕ) (rest : List ℕ)
      → remove_chan ch (closed_of s.gate c) ≡ some rest
      → CoveredAt d (receive s c rest)
  unfolding receive
  receive-CoveredAt c ch rest h = ground (
    arith,
    eq_iff c d,
    length-remove_chan ch (closed_of s.gate c) rest h,
    consume_view s.gate c rest d,
    count_of-bump c d s.retrying,
  )

  cancel-CoveredAt :
      (c : String) (ch : ℕ) (rest : List ℕ)
      → remove_chan ch (queue_of s.gate c) ≡ some rest
      → CoveredAt d (cancel s c ch)
  unfolding cancel
  cancel-CoveredAt c ch rest h = ground (
    arith,
    eq_iff c d,
    length-remove_chan ch (queue_of s.gate c) rest h,
    abandon_cases s.gate c ch d,
    abandon_keeps s.gate c ch d,
  )

  cancel_woken-CoveredAt :
      (c : String) (ch : ℕ) (rest : List ℕ)
      → remove_chan ch (closed_of s.gate c) ≡ some rest
      → remove_chan ch (queue_of s.gate c) ≡ none
      → CoveredAt d (cancel_woken s c ch rest)
  unfolding cancel_woken
  cancel_woken-CoveredAt c ch rest h k = ground (
    arith,
    eq_iff c d,
    length-remove_chan ch (closed_of s.gate c) rest h,
    consume_view s.gate c rest c,
    consume_view s.gate c rest d,
    abandon_cases (consume s.gate c rest) c ch d,
    abandon_keeps (consume s.gate c rest) c ch d,
    queue-wake_one (consume s.gate c rest) c d,
    closed-wake_one (consume s.gate c rest) c d,
  )

  finish-CoveredAt : (c : String) → CoveredAt d (finish s c)
  unfolding finish
  finish-CoveredAt c = ground (
    arith,
    in_flight-release s.gate c d,
    limit-release-le s.gate c d,
    queue-release s.gate c d,
    closed-release s.gate c d,
  )

-- One critical section of any goroutine loses no wake-up: if before it somebody is queued at a
-- credential only when the credential is full (slots that woken or retrying goroutines may still
-- take count as taken), then so after it, provided that the limit of a credential at which
-- somebody is queued is on record.
pub Step-CoveredAt :
    (d : String) {s t : System} → Step s t → TrackedAt d s → CoveredAt d s → CoveredAt d t
Step-CoveredAt d {s} (Step.arrives c n _) k v = arrive-CoveredAt d s v c n k
Step-CoveredAt d {s} (Step.tries c h) k v = try-CoveredAt d s v c h
Step-CoveredAt d {s} (Step.receives c ch rest h) k v = receive-CoveredAt d s v c ch rest h
Step-CoveredAt d {s} (Step.cancels c ch rest h) k v = cancel-CoveredAt d s v c ch rest h
Step-CoveredAt d {s} (Step.cancels_woken c ch rest h e) k v =
    cancel_woken-CoveredAt d s v c ch rest h e
Step-CoveredAt d {s} (Step.finishes c _) k v = finish-CoveredAt d s v c

forgets_limit :
    (g : Gate) (c : String)
    → in_flight_of g c ≤ 1
    → queue_of g c ≡ []
    → limit_of (give_back g c) c ≡ 0
unfolding give_back limit_of
forgets_limit g c h e = ground (arith, eq_iff c c, get_or-erase c c 0 g.limits)

-- When the last request in flight to a credential ends while nobody is queued there, the limit is
-- forgotten, so that a goroutine which was woken before and only now runs its round of the loop
-- joins the queue although nothing is in flight.
pub release_strands_woken :
    (g : Gate) (c : String)
    → in_flight_of g c ≤ 1
    → queue_of g c ≡ []
    → ((enter (release g c) c).1 ≡ queued (release g c).next_chan)
      × (in_flight_of (enter (release g c) c).0 c ≡ 0)
unfolding release
release_strands_woken g c h e = ground (
  arith,
  eq_iff c c,
  forgets_limit g c h e,
  enter_cases (wake_one (give_back g c) c) c c,
  limit-wake_one (give_back g c) c c,
  in_flight-wake_one (give_back g c) c c,
  in_flight-give_back g c c,
)
