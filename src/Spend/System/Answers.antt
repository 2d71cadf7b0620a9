-- ===== src/Spend/System/Answers.antt =====
-- backend/internal/spend/spend.go: what Get answers and what a crash loses, in any interleaving.
use songguo.Prelude.{◌≡◌, ◌≢◌, refl, ◌∙◌, false, some, String, ℕ, List, arith, str_eq, eq_iff}
use songguo.Prelude.Int.{ℤ, pos, ◌+ℤ◌}
use songguo.Prelude.Map.{Map, lookup, get_or, get_or-insert}
use songguo.Spend.{load, get_loaded, get_stored, adopt}
use songguo.Spend.System.{
  System, Flusher, writing, Step, adds, reads, answers, collects, finds, loads, misses, adopts,
  takes, saves, fails, settles, forgets, returns, Reach, here, next, boot, charge, read, answer, at,
  adopted, save, settled, forgot, read_row,
}
use songguo.Spend.System.Views.{total_of-add, total_of-adopt, total_of-settle, total_of-forget}
use songguo.Spend.System.Balance.{
  BalancedAt, ReadersAt, owed, charge-BalancedAt, answer-BalancedAt, adopted-BalancedAt,
  save-BalancedAt, settled-BalancedAt, forgot-BalancedAt, loads-BalancedAt, at-BalancedAt,
}

module _ (u : String) where
  charge-ReadersAt : (j : String) (d : ℤ) (s : System) → ReadersAt u s → ReadersAt u (charge j d s)
  charge-ReadersAt j d s r g v e n = ground (arith, r g v, total_of-add u j d s.tracker)

  read-ReadersAt :
      (h : ℕ) (j : String) (w : ℤ) (s : System)
      → load (read_row j s.disk) ≡ some w
      → ReadersAt u s
      → ReadersAt u (read h j w s)
  unfolding load get_or
  read-ReadersAt h j w s l r g v e n = ground (arith, r g v)

  answer-ReadersAt :
      (h : ℕ) (j : String) (w : ℤ) (s : System) → ReadersAt u s → ReadersAt u (answer h j w s)
  unfolding get_stored
  answer-ReadersAt h j w s r g v e n = ground (arith, r g v, total_of-adopt u j w s.tracker)

  adopted-ReadersAt :
      (j : String) (w : ℤ) (ids : List String) (s : System)
      → ReadersAt u s
      → ReadersAt u (adopted j w ids s)
  adopted-ReadersAt j w ids s r g v e n = ground (arith, r g v, total_of-adopt u j w s.tracker)

  settled-ReadersAt :
      (j : String) (b d : ℤ) (ids : List String) (s : System)
      → ReadersAt u s
      → ReadersAt u (settled j b d ids s)
  settled-ReadersAt j b d ids s r g v e n = ground (arith, r g v, total_of-settle u j b d s.tracker)

  forgot-ReadersAt :
      (j : String) (s : System) → str_eq j u ≡ false → ReadersAt u s → ReadersAt u (forgot j s)
  forgot-ReadersAt j s n r g v e m = ground (arith, r g v, total_of-forget u j s.tracker n)

  save-ReadersAt :
      (start : Map ℤ) (j : String) (b d : ℤ) (ids : List String) (s : System)
      → s.flusher ≡ writing j b d ids
      → BalancedAt start u s
      → ReadersAt u s
      → ReadersAt u (save j b d ids s)
  save-ReadersAt start j b d ids s p v r g w e n =
      ground (arith, r g w, eq_iff j u, get_or-insert j u (b +ℤ d) (pos 0) s.disk)

-- Everything that a state keeps true of one user.
pub record IsSafeAt (start : Map ℤ) (u : String) (s : System) : Type 0 where
  pub balanced : BalancedAt start u s
  pub readers : ReadersAt u s

module _ (start : Map ℤ) (u : String) (named : u ≢ "") where
  at-IsSafeAt :
      (f : Flusher) (s : System)
      → IsSafeAt start u s
      → BalancedAt start u (at f s)
      → IsSafeAt start u (at f s)
  at-IsSafeAt f s h b = record { balanced = b; readers = h.readers }

  -- Nobody is remembered again.
  Step-forgotten : {s t : System} → Step s t → t.forgotten u ≡ false → s.forgotten u ≡ false
  Step-forgotten (adds j d s) k = k
  Step-forgotten (reads g j w s l) k = k
  Step-forgotten (answers g j w s e) k = k
  Step-forgotten (collects s e) k = k
  Step-forgotten (finds j b ids s e found) k = k
  Step-forgotten (loads j w ids s e l) k = k
  Step-forgotten (misses j ids s e) k = k
  Step-forgotten (adopts j w ids s e) k = k
  Step-forgotten (takes j b ids s e) k = k
  Step-forgotten (saves j b d ids s e) k = k
  Step-forgotten (fails j b d ids s e) k = k
  Step-forgotten (settles j b d ids s e) k = k
  Step-forgotten (returns s e) k = k
  Step-forgotten (forgets j s) k = ground arith

  pub Step-IsSafeAt :
      {s t : System} → Step s t → t.forgotten u ≡ false → IsSafeAt start u s → IsSafeAt start u t
  Step-IsSafeAt (adds j d s) k h = record {
    balanced = charge-BalancedAt start u j d s named h.balanced;
    readers = charge-ReadersAt u j d s h.readers;
  }
  Step-IsSafeAt (reads g j w s l) k h = record {
    balanced = record { fits = h.balanced.fits; owes = h.balanced.owes };
    readers = read-ReadersAt u g j w s l h.readers;
  }
  Step-IsSafeAt (answers g j w s e) k h = record {
    balanced =
        answer-BalancedAt start u g j w s h.balanced (λ same n. h.readers g w (e ∙ rw same) n);
    readers = answer-ReadersAt u g j w s h.readers;
  }
  Step-IsSafeAt (collects s e) k h =
      at-IsSafeAt _ s h (at-BalancedAt start u _ s (λ m. ground arith) h.balanced)
  Step-IsSafeAt (finds j b ids s e found) k h =
      at-IsSafeAt _ s h (at-BalancedAt start u _ s (λ m. ground (arith, eq_iff j u)) h.balanced)
  Step-IsSafeAt (loads j w ids s e l) k h =
      at-IsSafeAt _ s h (loads-BalancedAt start u j w ids s e l h.balanced)
  Step-IsSafeAt (misses j ids s e) k h =
      at-IsSafeAt _ s h (at-BalancedAt start u _ s (λ m. ground arith) h.balanced)
  Step-IsSafeAt (adopts j w ids s e) k h = record {
    balanced = adopted-BalancedAt start u j w ids s e h.balanced;
    readers = adopted-ReadersAt u j w ids s h.readers;
  }
  Step-IsSafeAt (takes j b ids s e) k h =
      at-IsSafeAt _ s h (at-BalancedAt start u _ s (λ m. ground arith) h.balanced)
  Step-IsSafeAt (saves j b d ids s e) k h = record {
    balanced = save-BalancedAt start u j b d ids s e h.balanced;
    readers = save-ReadersAt u start j b d ids s e h.balanced h.readers;
  }
  Step-IsSafeAt (fails j b d ids s e) k h =
      at-IsSafeAt _ s h (at-BalancedAt start u _ s (λ m. ground arith) h.balanced)
  Step-IsSafeAt (settles j b d ids s e) k h = record {
    balanced = settled-BalancedAt start u j b d ids s e h.balanced;
    readers = settled-ReadersAt u j b d ids s h.readers;
  }
  Step-IsSafeAt (forgets j s) k h =
      let apart : str_eq j u ≡ false = ground arith in
      record {
        balanced = forgot-BalancedAt start u j s apart h.balanced;
        readers = forgot-ReadersAt u j s apart h.readers;
      }
  Step-IsSafeAt (returns s e) k h =
      at-IsSafeAt _ s h (at-BalancedAt start u _ s (λ m. ground arith) h.balanced)

  boot-IsSafeAt : IsSafeAt start u (boot start)
  unfolding lookup get_or
  boot-IsSafeAt = record { balanced = record { fits = tt; owes = refl }; readers = λ g v e n. cc }

  pub Reach-IsSafeAt :
      {s : System} → Reach (boot start) s → s.forgotten u ≡ false → IsSafeAt start u s
  Reach-IsSafeAt here k = boot-IsSafeAt
  Reach-IsSafeAt (next r st) k = Step-IsSafeAt st k (Reach-IsSafeAt r (Step-forgotten st k))

-- An answer that `Get` may return for a user in a state: from memory, or by its second section.
pub data Answer (u : String) (s : System) (b : ℤ) : Type 0 where
  from_memory : get_loaded u s.tracker ≡ some b → Answer u s b
  from_store :
      (g : ℕ) (v : ℤ) → s.readers g ≡ some (u, v) → (get_stored u v s.tracker).1 ≡ b → Answer u s b

-- Whatever goroutines add, read, flush and forget in whatever order, and whichever calls of the store
-- fail, `Get` answers for a user with a name, whom `Forget` has not been called for, what the store
-- held at the start plus every charge that was added since: a flush in progress shows in no answer,
-- and no charge is missed or counted twice.
pub Get-owed :
    (start : Map ℤ) (u : String) (s : System) (b : ℤ)
    → u ≢ ""
    → Reach (boot start) s
    → s.forgotten u ≡ false
    → Answer u s b
    → b ≡ owed start u s
unfolding get_loaded get_stored adopt
Get-owed start u s b n r k (from_memory e) =
    let h = Reach-IsSafeAt start u n r k in ground (arith, h.balanced.owes)
Get-owed start u s b n r k (from_store g v e f) =
    let h = Reach-IsSafeAt start u n r k in ground (arith, h.balanced.owes, h.readers g v)
