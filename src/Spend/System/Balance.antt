-- ===== src/Spend/System/Balance.antt =====
-- backend/internal/spend/spend.go: no charge is lost or counted twice, in any interleaving.
use songguo.Prelude.{
  false, ◌≡◌, sym, ◌∙◌, Option, none, some, String, ℕ, List, ◌∷◌, arith, if◌then◌else◌, str_eq,
  eq_iff,
}
use songguo.Prelude.Int.{ℤ, pos, ◌+ℤ◌, +ℤ_assoc, +ℤ_move}
use songguo.Prelude.Map.{Map, get_or, get_or-insert}
use songguo.Spend.{load, total_of, pending_of, get_stored}
use songguo.Spend.System.{
  System, Flusher, idle, before, loaded, based, writing, saved, charge, answer, at, adopted, save,
  settled, forgot, charged_of, disk_of, read_row,
}
use songguo.Spend.System.Views.{
  pending_of-add, total_of-add, total_of-adopt, adopt_result, pending_of-adopt, total_of-settle,
  pending_of-settle, total_of-forget, pending_of-forget,
}

-- What the flusher has to do with one user: nothing, the stored total, the total, the write.
pub data Phase : Type 0 where
  quiet : Phase
  got : ℤ → Phase
  held : ℤ → Phase
  wrote : ℤ → ℤ → Phase

abbrev pub phase_of : String → Flusher → Phase
phase_of u idle = quiet
phase_of u (before ids) = quiet
phase_of u (loaded j v ids) = if str_eq j u then got v else quiet
phase_of u (based j b ids) = if str_eq j u then held b else quiet
phase_of u (writing j b d ids) = if str_eq j u then held b else quiet
phase_of u (saved j b d ids) = if str_eq j u then wrote b d else quiet

-- The user's total and the row on disk, in each phase.
abbrev pub Fits : Option ℤ → ℤ → Phase → Type 0
Fits none disk quiet = Unit {0}
Fits none disk (got v) = disk ≡ v
Fits none disk (held b) = ⊥
Fits none disk (wrote b d) = ⊥
Fits (some t) disk quiet = disk ≡ t
Fits (some t) disk (got v) = disk ≡ t
Fits (some t) disk (held b) = (t ≡ b) × (disk ≡ t)
Fits (some t) disk (wrote b d) = (t ≡ b) × (disk ≡ b +ℤ d)

-- The total, or the row that stands for it, and the increments make up what is owed.
abbrev pub Owes : Option ℤ → ℤ → ℤ → ℤ → Type 0
Owes none disk pending owed = disk +ℤ pending ≡ owed
Owes (some t) disk pending owed = t +ℤ pending ≡ owed

-- What the table held at the start, and every charge since.
abbrev pub owed : Map ℤ → String → System → ℤ
owed start u s = get_or u (pos 0) start +ℤ charged_of u s

pub record BalancedAt (start : Map ℤ) (u : String) (s : System) : Type 0 where
  pub fits : Fits (total_of u s.tracker) (disk_of u s) (phase_of u s.flusher)
  pub owes : Owes (total_of u s.tracker) (disk_of u s) (pending_of u s.tracker) (owed start u s)

-- Whoever is between the sections of `Get` knows the row, unless the total is in memory.
abbrev pub ReadersAt : String → System → Type 0
ReadersAt u s =
    (g : ℕ) (v : ℤ) → s.readers g ≡ some (u, v) → total_of u s.tracker ≡ none → disk_of u s ≡ v

Owes-add :
    (t : Option ℤ) (disk p o d : ℤ) (start : ℤ)
    → Owes t disk p (start +ℤ o)
    → Owes t disk (p +ℤ d) (start +ℤ (o +ℤ d))
Owes-add none disk p o d start h = sym (+ℤ_assoc disk p d) ∙ rw h (+ℤ_assoc start o d)
Owes-add (some t) disk p o d start h = sym (+ℤ_assoc t p d) ∙ rw h (+ℤ_assoc start o d)

module _ (start : Map ℤ) (u : String) where
  pub charge-BalancedAt :
      (j : String) (d : ℤ) (s : System)
      → ¬ (u ≡ "")
      → BalancedAt start u s
      → BalancedAt start u (charge j d s)
  charge-BalancedAt j d s n v = ground (
    arith,
    eq_iff j u,
    eq_iff j "",
    total_of-add u j d s.tracker,
    pending_of-add u j d s.tracker,
    get_or-insert j u (charged_of j s +ℤ d) (pos 0) s.charged,
    Owes-add (total_of u s.tracker) (disk_of u s) (pending_of u s.tracker) (charged_of u s) d
        (get_or u (pos 0) start) v.owes,
  )

  pub answer-BalancedAt :
      (g : ℕ) (j : String) (w : ℤ) (s : System)
      → BalancedAt start u s
      → (j ≡ u → total_of u s.tracker ≡ none → disk_of u s ≡ w)
      → BalancedAt start u (answer g j w s)
  unfolding get_stored
  answer-BalancedAt g j w s v r =
      ground (arith, eq_iff j u, total_of-adopt u j w s.tracker, pending_of-adopt u j w s.tracker)

  pub adopted-BalancedAt :
      (j : String) (w : ℤ) (ids : List String) (s : System)
      → s.flusher ≡ loaded j w ids
      → BalancedAt start u s
      → BalancedAt start u (adopted j w ids s)
  adopted-BalancedAt j w ids s e v = ground (
    arith,
    eq_iff j u,
    total_of-adopt u j w s.tracker,
    adopt_result j w s.tracker,
    pending_of-adopt u j w s.tracker,
  )

  pub save-BalancedAt :
      (j : String) (b d : ℤ) (ids : List String) (s : System)
      → s.flusher ≡ writing j b d ids
      → BalancedAt start u s
      → BalancedAt start u (save j b d ids s)
  save-BalancedAt j b d ids s e v =
      ground (arith, eq_iff j u, get_or-insert j u (b +ℤ d) (pos 0) s.disk)

  pub settled-BalancedAt :
      (j : String) (b d : ℤ) (ids : List String) (s : System)
      → s.flusher ≡ saved j b d ids
      → BalancedAt start u s
      → BalancedAt start u (settled j b d ids s)
  settled-BalancedAt j b d ids s e v = ground (
    arith,
    eq_iff j u,
    total_of-settle u j b d s.tracker,
    pending_of-settle u j b d s.tracker,
    +ℤ_move b (pending_of u s.tracker) d,
  )

  pub forgot-BalancedAt :
      (j : String) (s : System)
      → str_eq j u ≡ false
      → BalancedAt start u s
      → BalancedAt start u (forgot j s)
  forgot-BalancedAt j s n v = record {
    fits = rw (total_of-forget u j s.tracker n) v.fits;
    owes = rw (total_of-forget u j s.tracker n, pending_of-forget u j s.tracker n) v.owes;
  }

  pub loads-BalancedAt :
      (j : String) (w : ℤ) (ids : List String) (s : System)
      → s.flusher ≡ before (j ∷ ids)
      → load (read_row j s.disk) ≡ some w
      → BalancedAt start u s
      → BalancedAt start u (at (loaded j w ids) s)
  unfolding load get_or
  loads-BalancedAt j w ids s e l v = ground (arith, eq_iff j u)

  -- The flusher moves to a phase that asks no more of the user than the one before.
  pub at-BalancedAt :
      (f : Flusher) (s : System)
      → (Fits (total_of u s.tracker) (disk_of u s) (phase_of u s.flusher)
          → Fits (total_of u s.tracker) (disk_of u s) (phase_of u f))
      → BalancedAt start u s
      → BalancedAt start u (at f s)
  at-BalancedAt f s m v = record { fits = m v.fits; owes = v.owes }
