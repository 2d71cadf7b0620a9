-- ===== src/Gate/Views.antt =====
-- What waking a waiter leaves at each credential, read through the accessors.
use songguo.Prelude.{
  ℕ, suc, ◌+◌, ◌-◌, ◌≤◌, ◌≡◌, refl, ◌⊎◌, inl, inr, Bool, true, false, List, [], ◌∷◌, String, arith,
  ltb, if◌then◌else◌, length, str_eq, eq_iff, Bool-cases,
}
use songguo.Prelude.Map.{lookup, insert, erase, get_or, get_or-insert, get_or-erase}
use songguo.Gate.{
  Gate, in_flight_of, queue_of, limit_of, closed_of, put_queue, wake_head, wake_one, wake_up_to,
}

abbrev pub tail : List ℕ → List ℕ
tail [] = []
tail (x ∷ xs) = xs

abbrev pub one_of : List ℕ → ℕ
one_of [] = 0
one_of (x ∷ xs) = 1

pub get_or-put_queue :
    (c d : String) (q : List ℕ) (m : songguo.Prelude.Map.Map (List ℕ))
    → get_or d [] (put_queue c q m) ≡ (if str_eq c d then q else get_or d [] m)
unfolding put_queue
get_or-put_queue c d [] m =
    ground (arith, get_or-erase c d [] (insert c [] m), get_or-insert c d [] [] m)
get_or-put_queue c d (x ∷ q) m = get_or-insert c d (x ∷ q) [] m

module _ (g : Gate) (c d : String) where
  queue-wake_head :
      (q : List ℕ)
      → queue_of g c ≡ q
      → queue_of (wake_head g c q) d ≡ (if str_eq c d then tail q else queue_of g d)
  unfolding queue_of wake_head
  queue-wake_head [] e = ground (arith, eq_iff c d)
  queue-wake_head (x ∷ q) e = get_or-put_queue c d q g.waiters

  pub queue-wake_one :
      queue_of (wake_one g c) d ≡ (if str_eq c d then tail (queue_of g c) else queue_of g d)
  unfolding wake_one
  queue-wake_one = queue-wake_head (queue_of g c) refl

  closed-wake_head :
      (q : List ℕ)
      → length (closed_of (wake_head g c q) d)
        ≡ (if str_eq c d then length (closed_of g d) + one_of q else length (closed_of g d))
  unfolding closed_of wake_head
  closed-wake_head [] = ground arith
  closed-wake_head (x ∷ q) =
      ground (arith, eq_iff c d, get_or-insert c d (x ∷ get_or c [] g.closed) [] g.closed)

  pub closed-wake_one : length (closed_of (wake_one g c) d) ≡ (
      if str_eq c d then length (closed_of g d) + one_of (queue_of g c) else length (closed_of g d))
  unfolding wake_one
  closed-wake_one = closed-wake_head (queue_of g c)

module _ (g : Gate) (c : String) where
  in_flight-wake_head :
      (d : String) (q : List ℕ) → in_flight_of (wake_head g c q) d ≡ in_flight_of g d
  unfolding in_flight_of wake_head
  in_flight-wake_head d [] = refl
  in_flight-wake_head d (x ∷ q) = refl

  limit-wake_head : (d : String) (q : List ℕ) → limit_of (wake_head g c q) d ≡ limit_of g d
  unfolding limit_of wake_head
  limit-wake_head d [] = refl
  limit-wake_head d (x ∷ q) = refl

  pub in_flight-wake_one : (d : String) → in_flight_of (wake_one g c) d ≡ in_flight_of g d
  unfolding wake_one
  in_flight-wake_one d = in_flight-wake_head d (queue_of g c)

  pub limit-wake_one : (d : String) → limit_of (wake_one g c) d ≡ limit_of g d
  unfolding wake_one
  limit-wake_one d = limit-wake_head d (queue_of g c)

pub in_flight-wake_up_to :
    (n : ℕ) (g : Gate) (c d : String) → in_flight_of (wake_up_to n g c) d ≡ in_flight_of g d
unfolding wake_up_to
in_flight-wake_up_to ℕ.zero g c d = refl
in_flight-wake_up_to (suc n) g c d =
    ground (arith, in_flight-wake_up_to n (wake_one g c) c d, in_flight-wake_one g c d)

pub limit-wake_up_to :
    (n : ℕ) (g : Gate) (c d : String) → limit_of (wake_up_to n g c) d ≡ limit_of g d
unfolding wake_up_to
limit-wake_up_to ℕ.zero g c d = refl
limit-wake_up_to (suc n) g c d =
    ground (arith, limit-wake_up_to n (wake_one g c) c d, limit-wake_one g c d)

-- Either everybody queued for the credential has been woken, or the full number has.
pub wake_up_to_wakes :
    (n : ℕ) (g : Gate) (c : String)
    → (queue_of (wake_up_to n g c) c ≡ [])
      ⊎ (length (closed_of (wake_up_to n g c) c) ≡ length (closed_of g c) + n)
unfolding wake_up_to
wake_up_to_wakes ℕ.zero g c = inr (omega arith)
wake_up_to_wakes (suc n) g c =
    ground (arith, eq_iff c c, wake_up_to_wakes n (wake_one g c) c, closed-wake_one g c c)

pub queue-wake_up_to_ne :
    (n : ℕ) (g : Gate) (c d : String)
    → str_eq c d ≡ false
    → (queue_of (wake_up_to n g c) d ≡ queue_of g d)
      × (length (closed_of (wake_up_to n g c) d) ≡ length (closed_of g d))
unfolding wake_up_to
queue-wake_up_to_ne ℕ.zero g c d h = (refl, refl)
queue-wake_up_to_ne (suc n) g c d h =
    ground (
      arith,
      queue-wake_up_to_ne n (wake_one g c) c d h,
      queue-wake_one g c d,
      closed-wake_one g c d,
    )

pub queue-wake_up_to_nil :
    (n : ℕ) (g : Gate) (c : String) → queue_of g c ≡ [] → queue_of (wake_up_to n g c) c ≡ []
unfolding wake_up_to
queue-wake_up_to_nil ℕ.zero g c h = h
queue-wake_up_to_nil (suc n) g c h = ground arith
