-- ===== src/Gate/System/Counts.antt =====
-- The ghost counters of the system, read at any credential.
use songguo.Prelude.{ℕ, ◌+◌, ◌-◌, ◌≤◌, ◌≡◌, true, String, arith, if◌then◌else◌, str_eq, eq_iff}
use songguo.Prelude.Map.{Map, get_or, get_or-insert}
use songguo.Gate.System.{count_of, bump, drop, raise}

pub count_of-bump :
    (c d : String) (m : Map ℕ)
    → count_of d (bump c m) ≡ (if str_eq c d then count_of d m + 1 else count_of d m)
unfolding count_of bump
count_of-bump c d m = ground (arith, eq_iff c d, get_or-insert c d (get_or c 0 m + 1) 0 m)

pub count_of-drop :
    (c d : String) (m : Map ℕ)
    → count_of d (drop c m) ≡ (if str_eq c d then count_of d m - 1 else count_of d m)
unfolding count_of drop
count_of-drop c d m = ground (arith, eq_iff c d, get_or-insert c d (get_or c 0 m - 1) 0 m)

pub count_of-raise :
    (c d : String) (n : ℕ) (m : Map ℕ)
    → (count_of d m ≤ count_of d (raise c n m)) × (str_eq c d ≡ true → n ≤ count_of d (raise c n m))
unfolding count_of raise
count_of-raise c d n m = ground (arith, eq_iff c d, get_or-insert c d n 0 m)
