-- ===== src/Spend/Flush/Rounds.antt =====
-- backend/internal/spend/spend.go: Flush over all users with increments.
use songguo.Prelude.{
  ◌≡◌, refl, Bool, true, false, ◌||◌, none, List, [], ◌∷◌, String, arith, if◌then◌else◌, str_eq,
  eq_iff, Option-cases, inl, inr,
}
use songguo.Prelude.Int.{ℤ, pos, +ℤ_zero, eqb_ℤ-eq}
use songguo.Prelude.Map.{Map, lookup, get_or}
use songguo.Spend.{Tracker, pending_of, load, dirty, dirty_in}
use songguo.Spend.Flush.{Faults, Round, base_for, flush_user, flush_users, flush}
use songguo.Spend.Flush.Saves.{
  Keeps, IsInStep, Works, spend_of, base_for-Keeps, write-Keeps, write_pending,
}

module _ (o : Faults) (u : String) where
  flush_user-Keeps :
      (j : String) (spend : ℤ) (r : Round) → Keeps u spend r → Keeps u spend (flush_user o j r)
  unfolding flush_user
  flush_user-Keeps j spend r k = elim (Option-cases (base_for o j r)) [
    | inl e ↦ rw (e, flush_user) (record { in_step = k.in_step; spent = k.spent })
    | inr ((t, b), e) ↦
        let kept = base_for-Keeps o u j spend r t b e k in
        rw (e, flush_user) (write-Keeps o u j spend b t r kept.1 kept.0)
  ]

  flush_users-Keeps :
      (ids : List String) (spend : ℤ) (r : Round)
      → Keeps u spend r
      → Keeps u spend (flush_users o ids r)
  unfolding flush_users
  flush_users-Keeps [] spend r k = k
  flush_users-Keeps (j ∷ ids) spend r k =
      flush_users-Keeps ids spend (flush_user o j r) (flush_user-Keeps j spend r k)

  base_for-ne-none : (r : Round) → o.load_fails u ≡ false → base_for o u r ≡ none → ⊥
  unfolding base_for load
  base_for-ne-none r w e = ground arith

  flush_user_pending :
      (j : String) (spend : ℤ) (r : Round)
      → (str_eq j u ≡ true → Works o u)
      → Keeps u spend r
      → pending_of u (flush_user o j r).tracker
        ≡ (if str_eq j u then pos 0 else pending_of u r.tracker)
  unfolding flush_user
  flush_user_pending j spend r w k = elim (Option-cases (base_for o j r)) [
    | inl e ↦ rw (e, flush_user) (ground (arith, eq_iff j u, base_for-ne-none r))
    | inr ((t, b), e) ↦
        let kept = base_for-Keeps o u j spend r t b e k in
        rw (e, flush_user) (ground (arith, write_pending o u j b t r, kept.2))
  ]

  abbrev contains : List String → Bool
  contains [] = false
  contains (j ∷ ids) = str_eq j u || contains ids

  flush_users_pending :
      (ids : List String) (spend : ℤ) (r : Round)
      → Works o u
      → Keeps u spend r
      → pending_of u (flush_users o ids r).tracker
        ≡ (if contains ids then pos 0 else pending_of u r.tracker)
  unfolding flush_users
  flush_users_pending [] spend r w k = refl
  flush_users_pending (j ∷ ids) spend r w k = ground (
    arith,
    flush_users_pending ids spend (flush_user o j r) w (flush_user-Keeps j spend r k),
    flush_user_pending j spend r (λ e. w) k,
  )

  contains-dirty_in : (m : Map ℤ) → contains (dirty_in m) ≡ false → get_or u (pos 0) m ≡ pos 0
  unfolding dirty_in get_or lookup
  contains-dirty_in [] h = refl
  contains-dirty_in ((j, d) ∷ m) h =
      ground (arith, eq_iff j u, eqb_ℤ-eq d (pos 0), contains-dirty_in m)

  dirty-clean : (t : Tracker) → contains (dirty t) ≡ false → pending_of u t ≡ pos 0
  unfolding dirty
  dirty-clean t h = contains-dirty_in t.pending h

Keeps-saved :
    (u : String) (spend : ℤ) (r : Round)
    → Keeps u spend r
    → pending_of u r.tracker ≡ pos 0
    → get_or u (pos 0) r.disk ≡ spend
unfolding spend_of
Keeps-saved u spend r k c = ground (arith, k, +ℤ_zero (get_or u (pos 0) r.disk), k.spent)

-- A flush changes what `Get` answers for no user, whichever calls of the store fail for whomever.
pub flush-spend_of :
    (o : Faults) (t : Tracker) (disk : Map ℤ) (u : String)
    → IsInStep u (record { tracker = t; disk = disk; error = false })
    → spend_of u (flush o t disk).tracker (flush o t disk).disk ≡ spend_of u t disk
unfolding flush
flush-spend_of o t disk u h =
    (flush_users-Keeps o u (dirty t) (spend_of u t disk)
      (record { tracker = t; disk = disk; error = false })
      (record { in_step = h; spent = refl })).spent

-- Where the store fails neither of a user's calls, a flush writes the user's spend to the store and
-- leaves nothing of it pending, also if it fails for other users.
pub flush-saves :
    (o : Faults) (t : Tracker) (disk : Map ℤ) (u : String)
    → Works o u
    → IsInStep u (record { tracker = t; disk = disk; error = false })
    → (get_or u (pos 0) (flush o t disk).disk ≡ spend_of u t disk)
      × (pending_of u (flush o t disk).tracker ≡ pos 0)
unfolding flush
flush-saves o t disk u w h =
    let first : Round = record { tracker = t; disk = disk; error = false } in
    let start : Keeps u (spend_of u t disk) first = record { in_step = h; spent = refl } in
    let kept = flush_users-Keeps o u (dirty t) (spend_of u t disk) first start in
    let clean : pending_of u (flush o t disk).tracker ≡ pos 0 = ground (
      arith,
      flush_users_pending o u (dirty t) (spend_of u t disk) first w start,
      dirty-clean o u t,
    ) in
    (Keeps-saved u (spend_of u t disk) (flush o t disk) kept clean, clean)
