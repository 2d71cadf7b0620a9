-- ===== src/Router/Health/Streaks.antt =====
-- backend/internal/router/health.go: ambiguous failures in a row, with no success among them.
use songguo.Prelude.{ℕ, ◌+◌, ◌-◌, ◌<◌, ◌≡◌, List, [], ◌∷◌, arith, leb, length}
use songguo.Router.Health.{
  Knobs, VendorHealth, fail, demote, streak, fold_failure, fold_report, unreported,
}

-- The health after a failure at each of these instants.
pub run_fails : Knobs → VendorHealth → List ℕ → VendorHealth
run_fails k h [] = h
run_fails k h (t ∷ ts) = run_fails k (fold_report k fail h t).0 ts

-- The streak, the demotions and the verdict as functions of the number of failures.
pub record AfterFails (k : Knobs) (n : ℕ) (h : VendorHealth) : Type 0 where
  pub counted : h.consec_fail ≡ n
  pub demoted : h.demotions ≡ n + 1 - k.fail_threshold
  pub verdict : h.dead ≡ leb k.dead_after h.demotions

fail-AfterFails :
    (k : Knobs) (n t : ℕ) (h : VendorHealth)
    → AfterFails k n h
    → AfterFails k (n + 1) (fold_report k fail h t).0
unfolding fold_report fold_failure streak demote
fail-AfterFails k n t h v = ground arith

run_fails-AfterFails :
    (k : Knobs) (n : ℕ) (h : VendorHealth) (ts : List ℕ)
    → AfterFails k n h
    → AfterFails k (n + length ts) (run_fails k h ts)
unfolding run_fails
run_fails-AfterFails k n h [] v = ground arith
run_fails-AfterFails k n h (t ∷ ts) v = ground (
  arith,
  run_fails-AfterFails k (n + 1) (fold_report k fail h t).0 ts (fail-AfterFails k n t h v),
)

-- From a vendor never heard of, n ambiguous failures in a row make n + 1 - `fail_threshold`
-- demotions (none below the threshold), and the vendor is dead exactly when these are `dead_after`
-- or more.
pub run_fails_lem :
    (k : Knobs) (ts : List ℕ)
    → 0 < k.fail_threshold
    → 0 < k.dead_after
    → AfterFails k (length ts) (run_fails k unreported ts)
run_fails_lem k ts h d =
    let start : AfterFails k 0 unreported = ground arith in
    ground (arith, run_fails-AfterFails k 0 unreported ts start)
