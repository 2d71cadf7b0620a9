-- ===== src/Spend/System/Views.antt =====
-- backend/internal/spend/spend.go: what each critical section does to the entries of one user.
use songguo.Prelude.{
  ◌≡◌, ◌&&◌, not, none, some, String, arith, false, if◌then◌else◌, str_eq, eq_iff,
}
use songguo.Prelude.Int.{ℤ, pos, ◌+ℤ◌, ◌-ℤ◌, eqb_ℤ-eq, +ℤ_zero}
use songguo.Prelude.Map.{lookup-insert, lookup-erase, get_or-insert, get_or-erase}
use songguo.Spend.{Tracker, add, adopt, settle, forget, pending_of, total_of}

pub pending_of-add :
    (u j : String) (d : ℤ) (t : Tracker)
    → pending_of u (add j d t)
      ≡ (if str_eq j u && not (str_eq j "") then pending_of u t +ℤ d else pending_of u t)
unfolding add
pending_of-add u j d t = ground (
  arith,
  eq_iff j u,
  eqb_ℤ-eq d (pos 0),
  +ℤ_zero (pending_of u t),
  get_or-insert j u (pending_of j t +ℤ d) (pos 0) t.pending,
)

pub total_of-add : (u j : String) (d : ℤ) (t : Tracker) → total_of u (add j d t) ≡ total_of u t
unfolding add
total_of-add u j d t = ground arith

pub total_of-adopt :
    (u j : String) (v : ℤ) (t : Tracker)
    → total_of u (adopt j v t).0 ≡ (
        if str_eq j u
        then elim (total_of u t) [ none ↦ some v | some b ↦ some b ]
        else total_of u t)
unfolding adopt
total_of-adopt u j v t = ground (arith, eq_iff j u, lookup-insert j u v t.total)

pub adopt_result :
    (j : String) (v : ℤ) (t : Tracker) → total_of j (adopt j v t).0 ≡ some (adopt j v t).1
unfolding adopt
adopt_result j v t = ground (arith, eq_iff j j, lookup-insert j j v t.total)

pub pending_of-adopt :
    (u j : String) (v : ℤ) (t : Tracker) → pending_of u (adopt j v t).0 ≡ pending_of u t
unfolding adopt
pending_of-adopt u j v t = ground arith

pub total_of-settle :
    (u j : String) (b d : ℤ) (t : Tracker)
    → total_of u (settle j b d t) ≡ (if str_eq j u then some (b +ℤ d) else total_of u t)
unfolding settle
total_of-settle u j b d t = ground (arith, lookup-insert j u (b +ℤ d) t.total)

pub pending_of-settle :
    (u j : String) (b d : ℤ) (t : Tracker)
    → pending_of u (settle j b d t) ≡ (if str_eq j u then pending_of u t -ℤ d else pending_of u t)
unfolding settle
pending_of-settle u j b d t = ground (
  arith,
  eq_iff j u,
  eqb_ℤ-eq (pending_of j t -ℤ d) (pos 0),
  get_or-erase j u (pos 0) t.pending,
  get_or-insert j u (pending_of j t -ℤ d) (pos 0) t.pending,
)

pub total_of-forget :
    (u j : String) (t : Tracker) → str_eq j u ≡ false → total_of u (forget j t) ≡ total_of u t
unfolding forget
total_of-forget u j t n = ground (arith, lookup-erase j u t.total)

pub pending_of-forget :
    (u j : String) (t : Tracker) → str_eq j u ≡ false → pending_of u (forget j t) ≡ pending_of u t
unfolding forget
pending_of-forget u j t n = ground (arith, get_or-erase j u (pos 0) t.pending)
