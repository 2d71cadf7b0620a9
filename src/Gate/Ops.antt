-- ===== src/Gate/Ops.antt =====
-- What each critical section leaves at each credential, read through the accessors: the one that
-- it is about gets the new value, and every other keeps its own.
use songguo.Prelude.{
  ℕ, ◌+◌, ◌-◌, ◌≤◌, ◌<◌, ◌≡◌, refl, ◌⊎◌, inl, inr, false, none, some, List, [], ◌∷◌, ◌++◌, ◌∙◌,
  String, arith, leb, if◌then◌else◌, length, str_eq, eq_iff, Bool-cases, Option-cases, leb→le,
}
use songguo.Prelude.Map.{lookup, insert, get_or, get_or-insert, get_or-erase}
use songguo.Gate.{
  Gate, admitted, queued, in_flight_of, queue_of, limit_of, closed_of, wake_one, wake_up_to,
  observe_limit, enter, give_back, release, remove_chan, abandon,
}
use songguo.Gate.Views.{
  tail, one_of, get_or-put_queue, queue-wake_one, closed-wake_one, in_flight-wake_one,
  limit-wake_one, in_flight-wake_up_to, limit-wake_up_to, wake_up_to_wakes, queue-wake_up_to_ne,
  queue-wake_up_to_nil,
}

module _ (g : Gate) (c d : String) where
  pub in_flight-give_back :
      in_flight_of (give_back g c) d
      ≡ (if str_eq c d then in_flight_of g d - 1 else in_flight_of g d)
  unfolding give_back in_flight_of
  in_flight-give_back = ground (
    arith,
    eq_iff c d,
    get_or-insert c d (get_or c 0 g.in_flight - 1) 0 g.in_flight,
    get_or-erase c d 0 g.in_flight,
  )

  pub queue-give_back : queue_of (give_back g c) d ≡ queue_of g d
  unfolding give_back queue_of
  queue-give_back = ground arith

  pub closed-give_back : closed_of (give_back g c) d ≡ closed_of g d
  unfolding give_back closed_of
  closed-give_back = ground arith

  pub limit-give_back : limit_of (give_back g c) d ≤ limit_of g d
  unfolding give_back limit_of
  limit-give_back = ground (arith, get_or-erase c d 0 g.limits)

  pub in_flight-release :
      in_flight_of (release g c) d ≡ (if str_eq c d then in_flight_of g d - 1 else in_flight_of g d)
  unfolding release
  in_flight-release = in_flight-wake_one (give_back g c) c d ∙ in_flight-give_back

  pub limit-release-le : limit_of (release g c) d ≤ limit_of g d
  unfolding release
  limit-release-le = ground (arith, limit-wake_one (give_back g c) c d, limit-give_back)

  pub queue-release :
      queue_of (release g c) d ≡ (if str_eq c d then tail (queue_of g d) else queue_of g d)
  unfolding release
  queue-release = ground (arith, eq_iff c d, queue-wake_one (give_back g c) c d, queue-give_back)

  pub closed-release : length (closed_of (release g c) d) ≡ (
      if str_eq c d then length (closed_of g d) + one_of (queue_of g d) else length (closed_of g d))
  unfolding release
  closed-release =
      ground
        (arith, eq_iff c d, closed-wake_one (give_back g c) c d, closed-give_back, queue-give_back)

-- The limit recorded, and nobody woken yet.
abbrev relimit : Gate → String → ℕ → Gate
relimit g c n = record g { limits = insert c n g.limits }

-- A first report or a lowered limit wakes nobody; a raise wakes one waiter for each new slot.
pub observe_limit_cases :
    (g : Gate) (c : String) (n : ℕ)
    → ((observe_limit g c n ≡ relimit g c n) × ((lookup c g.limits ≡ none) ⊎ (n ≤ limit_of g c)))
      ⊎ ((limit_of g c < n)
          × (observe_limit g c n ≡ wake_up_to (n - limit_of g c) (relimit g c n) c))
unfolding observe_limit limit_of get_or
observe_limit_cases g c n = elim (Option-cases (lookup c g.limits)) [
  | inl e ↦ rw (e, observe_limit) (inl (refl, inl refl))
  | inr (p, e) ↦ elim (Bool-cases (leb n p)) [
    | inl h ↦
        inl (rw (e, observe_limit) (rw h refl), inr (rw (e, get_or) (omega (arith, leb→le n p h))))
    | inr h ↦ inr (rw (e, get_or) (ground arith), rw (e, observe_limit, get_or) (rw h refl))
  ]
]

module _ (g : Gate) (c : String) (n : ℕ) (d : String) where
  limit-relimit : limit_of (relimit g c n) d ≡ (if str_eq c d then n else limit_of g d)
  unfolding limit_of
  limit-relimit = get_or-insert c d n 0 g.limits

  same-relimit :
      (in_flight_of (relimit g c n) d ≡ in_flight_of g d)
      × (queue_of (relimit g c n) d ≡ queue_of g d)
      × (closed_of (relimit g c n) d ≡ closed_of g d)
  unfolding in_flight_of queue_of closed_of
  same-relimit = (refl, refl, refl)

  pub in_flight-observe_limit : in_flight_of (observe_limit g c n) d ≡ in_flight_of g d
  in_flight-observe_limit = ground (
    arith,
    observe_limit_cases g c n,
    same-relimit,
    in_flight-wake_up_to (n - limit_of g c) (relimit g c n) c d,
  )

  pub limit-observe_limit :
      limit_of (observe_limit g c n) d ≡ (if str_eq c d then n else limit_of g d)
  limit-observe_limit = ground (
    arith,
    observe_limit_cases g c n,
    limit-relimit,
    limit-wake_up_to (n - limit_of g c) (relimit g c n) c d,
  )

  pub observe_limit_ne :
      str_eq c d ≡ false
      → (queue_of (observe_limit g c n) d ≡ queue_of g d)
        × (length (closed_of (observe_limit g c n) d) ≡ length (closed_of g d))
  observe_limit_ne h = ground (
    arith,
    observe_limit_cases g c n,
    same-relimit,
    queue-wake_up_to_ne (n - limit_of g c) (relimit g c n) c d h,
  )

-- `Acquire`'s round at the credential itself.
pub enter_cases :
    (g : Gate) (c d : String)
    → ((enter g c).1 ≡ admitted)
        × (in_flight_of g c < limit_of g c)
        × (in_flight_of (enter g c).0 d
            ≡ (if str_eq c d then in_flight_of g d + 1 else in_flight_of g d))
        × (queue_of (enter g c).0 d ≡ queue_of g d)
      ⊎ ((enter g c).1 ≡ queued g.next_chan)
        × (limit_of g c ≤ in_flight_of g c)
        × (in_flight_of (enter g c).0 d ≡ in_flight_of g d)
        × (queue_of (enter g c).0 d
            ≡ (if str_eq c d then queue_of g d ++ g.next_chan ∷ [] else queue_of g d))
unfolding enter in_flight_of limit_of queue_of
enter_cases g c d = ground (
  arith,
  eq_iff c d,
  get_or-insert c d (get_or c 0 g.in_flight + 1) 0 g.in_flight,
  get_or-insert c d (get_or c [] g.waiters ++ g.next_chan ∷ []) [] g.waiters,
)

pub enter_keeps :
    (g : Gate) (c d : String)
    → (limit_of (enter g c).0 d ≡ limit_of g d) × (closed_of (enter g c).0 d ≡ closed_of g d)
unfolding enter limit_of closed_of
enter_keeps g c d = ground arith

-- A caller that gives up leaves the queue, or passes its wake-up on.
module _ (g : Gate) (c : String) (ch : ℕ) where
  pub abandon_cases :
      (d : String)
      → ((rest : List ℕ) × (remove_chan ch (queue_of g c) ≡ some rest)
          × (queue_of (abandon g c ch) d ≡ (if str_eq c d then rest else queue_of g d))
          × (closed_of (abandon g c ch) d ≡ closed_of g d))
        ⊎ ((remove_chan ch (queue_of g c) ≡ none) × (abandon g c ch ≡ wake_one g c))
  unfolding abandon queue_of closed_of
  abandon_cases d = elim (Option-cases (remove_chan ch (get_or c [] g.waiters))) [
    | inl e ↦ inr (e, rw (e, abandon) refl)
    | inr (rest, e) ↦
        inl (rest, e, rw (e, abandon) (get_or-put_queue c d rest g.waiters), rw (e, abandon) refl)
  ]

  pub abandon_keeps :
      (d : String)
      → (in_flight_of (abandon g c ch) d ≡ in_flight_of g d)
        × (limit_of (abandon g c ch) d ≡ limit_of g d)
  unfolding abandon
  abandon_keeps d = elim (Option-cases (remove_chan ch (queue_of g c))) [
    | inl e ↦ (rw (e, abandon) (in_flight-wake_one g c d), rw (e, abandon) (limit-wake_one g c d))
    | inr (rest, e) ↦
        (rw (e, abandon) (unfold in_flight_of in refl), rw (e, abandon) (unfold limit_of in refl))
  ]

-- At its own credential a report changes the room by at most the waiters that it wakes.
pub observe_limit_wakes :
    (g : Gate) (c : String) (n : ℕ)
    → ((lookup c g.limits ≡ none) × (queue_of (observe_limit g c n) c ≡ queue_of g c))
      ⊎ (queue_of (observe_limit g c n) c ≡ [])
      ⊎ ((n ≤ limit_of g c)
          × (queue_of (observe_limit g c n) c ≡ queue_of g c)
          × (length (closed_of (observe_limit g c n) c) ≡ length (closed_of g c)))
      ⊎ (length (closed_of (observe_limit g c n) c) + limit_of g c ≡ length (closed_of g c) + n)
observe_limit_wakes g c n = ground (
  arith,
  observe_limit_cases g c n,
  same-relimit g c n c,
  wake_up_to_wakes (n - limit_of g c) (relimit g c n) c,
)

pub queue-observe_limit_nil :
    (g : Gate) (c : String) (n : ℕ) → queue_of g c ≡ [] → queue_of (observe_limit g c n) c ≡ []
queue-observe_limit_nil g c n h = ground (
  arith,
  observe_limit_cases g c n,
  same-relimit g c n c,
  queue-wake_up_to_nil (n - limit_of g c) (relimit g c n) c,
)
