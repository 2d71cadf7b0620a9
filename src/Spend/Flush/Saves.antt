-- ===== src/Spend/Flush/Saves.antt =====
-- backend/internal/spend/spend.go: what Flush writes, and what it leaves where the store fails.
use songguo.Prelude.{
  ◌≡◌, true, false, none, some, String, arith, if◌then◌else◌, str_eq, eq_iff, Option-cases, inl,
  inr,
}
use songguo.Prelude.Int.{ℤ, pos, ◌+ℤ◌, ◌-ℤ◌, +ℤ_move, int_laws}
use songguo.Prelude.Map.{Map, lookup, get_or, get_or-insert}
use songguo.Spend.{Tracker, total_of, pending_of, load}
use songguo.Spend.Flush.{Faults, Round, base_for, write}
use songguo.Spend.System.Views.{
  total_of-adopt, adopt_result, pending_of-adopt, total_of-settle, pending_of-settle,
}

-- What `Get` answers for a user.
unfoldable pub spend_of : String → Tracker → Map ℤ → ℤ
spend_of u t disk =
    elim (total_of u t) [ none ↦ get_or u (pos 0) disk | some b ↦ b ] +ℤ pending_of u t

-- The user's total in memory, if any, is the one on disk.
abbrev pub IsInStep : String → Round → Type 0
IsInStep u r = elim (total_of u r.tracker) [
  | none ↦ Unit {0}
  | some b ↦ get_or u (pos 0) r.disk ≡ b
]

-- A user for whom the store works.
abbrev pub Works : Faults → String → Type 0
Works o u = (o.load_fails u ≡ false) × (o.save_fails u ≡ false)

self_minus : (a : ℤ) → a -ℤ a ≡ pos 0
self_minus a = omega int_laws

pub record Keeps (u : String) (spend : ℤ) (r : Round) : Type 0 where
  pub in_step : IsInStep u r
  pub spent : spend_of u r.tracker r.disk ≡ spend

module _ (o : Faults) (u : String) where
  -- Getting hold of a user's total reads the row that stands for it.
  pub base_for-Keeps :
      (j : String) (spend : ℤ) (r : Round) (t : Tracker) (b : ℤ)
      → base_for o j r ≡ some (t, b)
      → Keeps u spend r
      → Keeps u spend (record r { tracker = t })
        × (total_of j t ≡ some b)
        × (pending_of u t ≡ pending_of u r.tracker)
  unfolding base_for load spend_of get_or
  base_for-Keeps j spend r t b e k = elim (Option-cases (lookup j r.disk)) [
    | inl m ↦ ground (
      arith,
      m,
      eq_iff j u,
      total_of-adopt u j (pos 0) r.tracker,
      adopt_result j (pos 0) r.tracker,
      pending_of-adopt u j (pos 0) r.tracker,
    )
    | inr (v, m) ↦ ground (
      arith,
      m,
      eq_iff j u,
      total_of-adopt u j v r.tracker,
      adopt_result j v r.tracker,
      pending_of-adopt u j v r.tracker,
    )
  ]

  pub write-Keeps :
      (j : String) (spend b : ℤ) (t : Tracker) (r : Round)
      → total_of j t ≡ some b
      → Keeps u spend (record r { tracker = t })
      → Keeps u spend (write o j b t r)
  unfolding write spend_of
  write-Keeps j spend b t r e k = ground (
    arith,
    eq_iff j u,
    total_of-settle u j b (pending_of j t) t,
    pending_of-settle u j b (pending_of j t) t,
    get_or-insert j u (b +ℤ pending_of j t) (pos 0) r.disk,
    +ℤ_move b (pending_of j t) (pending_of j t),
  )

  pub write_pending :
      (j : String) (b : ℤ) (t : Tracker) (r : Round)
      → (str_eq j u ≡ true → o.save_fails u ≡ false)
      → pending_of u (write o j b t r).tracker ≡ (if str_eq j u then pos 0 else pending_of u t)
  unfolding write
  write_pending j b t r w =
      ground
        (arith, eq_iff j u, pending_of-settle u j b (pending_of j t) t, self_minus (pending_of u t))
