-- ===== src/Router/Health/Clients.antt =====
-- backend/internal/router/health.go: rejections that may be the caller's fault, counted by session.
use songguo.Prelude.{
  ℕ, suc, ◌+◌, ◌-◌, ◌≤◌, ◌<◌, ◌≡◌, refl, ◌⊎◌, inl, inr, true, false, ◌||◌, ◌&&◌, not, List, [], ◌∷◌,
  String, arith, ltb, leb, if◌then◌else◌, length, str_eq, eq_iff, All, min,
}
use songguo.Router.Health.{Knobs, VendorHealth, demote, fold_client_fail, unreported}
use songguo.Router.Health.Sessions.{
  IsDistinct, noted, oldest, length-oldest, fold_client_fail-oldest, noted-IsDistinct,
}
use songguo.Router.Health.Ladder.{IsValid}

-- The health after a rejection seen by each of these sessions, at each of these instants.
pub run_client_fails : Knobs → VendorHealth → List (String × ℕ) → VendorHealth
run_client_fails k h [] = h
run_client_fails k h ((s, t) ∷ xs) = run_client_fails k (fold_client_fail k s h t).0 xs

-- The sessions of such rejections, each once, the newest first.
abbrev pub sessions_onto : List String → List (String × ℕ) → List String
sessions_onto sessions [] = sessions
sessions_onto sessions ((s, t) ∷ xs) = sessions_onto (noted s sessions) xs

abbrev pub sessions_in : List (String × ℕ) → List String
sessions_in xs = sessions_onto [] xs

-- The record, the demotions and the verdict as functions of the sessions, by the number n of those
-- that the record takes.
pub record AfterClients (k : Knobs) (sessions : List String) (h : VendorHealth) : Type 0 where
  pub distinct : IsDistinct sessions
  pub recorded : h.client_fails ≡ oldest k.client_fail_max sessions
  pub demoted :
      let n = min k.client_fail_max (length sessions) in
      h.demotions ≡ n + 1 - k.client_fail_threshold
  pub verdict :
      let n = min k.client_fail_max (length sessions) in
      h.dead ≡ leb (k.client_fail_threshold + k.dead_after) (n + 1)

fold_client_fail-AfterClients :
    (k : Knobs) (s : String) (t : ℕ) (sessions : List String) (h : VendorHealth)
    → IsValid k
    → AfterClients k sessions h
    → AfterClients k (noted s sessions) (fold_client_fail k s h t).0
unfolding fold_client_fail demote
fold_client_fail-AfterClients k s t sessions h p v =
    let recorded = fold_client_fail-oldest k s t sessions h v.recorded in
    let before = length-oldest k.client_fail_max sessions in
    let after = length-oldest k.client_fail_max (noted s sessions) in
    record {
      distinct = noted-IsDistinct s sessions v.distinct;
      recorded = recorded;
      demoted =
          ground
            (arith, p.client_fails, p.client_max, v.recorded, v.demoted, recorded, before, after);
      verdict = ground (
        arith, p.client_fails, p.client_max, p.dies, v.recorded, v.demoted, v.verdict, recorded,
        before, after,
      );
    }

run_client_fails-AfterClients :
    (k : Knobs) (sessions : List String) (h : VendorHealth) (xs : List (String × ℕ))
    → IsValid k
    → AfterClients k sessions h
    → AfterClients k (sessions_onto sessions xs) (run_client_fails k h xs)
unfolding run_client_fails
run_client_fails-AfterClients k sessions h [] p v = v
run_client_fails-AfterClients k sessions h ((s, t) ∷ xs) p v =
    run_client_fails-AfterClients k (noted s sessions) (fold_client_fail k s h t).0 xs p
      (fold_client_fail-AfterClients k s t sessions h p v)

-- With valid knobs, from a vendor never heard of, whatever sessions see it reject their requests:
-- its record has the oldest `client_fail_max` of the distinct sessions; with n of them on record
-- there were n + 1 - `client_fail_threshold` demotions (none below the threshold); and the vendor is
-- dead exactly when n + 1 is at least `client_fail_threshold` + `dead_after`.
pub run_client_fails_lem :
    (k : Knobs) (xs : List (String × ℕ))
    → IsValid k
    → AfterClients k (sessions_in xs) (run_client_fails k unreported xs)
run_client_fails_lem k xs p =
    let start : AfterClients k [] unreported = ground (arith, p.client_fails, p.dies) in
    run_client_fails-AfterClients k [] unreported xs p start

abbrev OnlyOf : String → VendorHealth → Type 0
OnlyOf s h = (h.demotions ≡ 0) × ((h.client_fails ≡ []) ⊎ (h.client_fails ≡ s ∷ []))

fold_client_fail-OnlyOf :
    (k : Knobs) (s : String) (t : ℕ) (h : VendorHealth)
    → 2 ≤ k.client_fail_threshold
    → OnlyOf s h
    → OnlyOf s (fold_client_fail k s h t).0
unfolding fold_client_fail demote
fold_client_fail-OnlyOf k s t h l v = ground (arith, eq_iff s s)

run-OnlyOf :
    (k : Knobs) (s : String) (h : VendorHealth) (ts : List ℕ)
    → 2 ≤ k.client_fail_threshold
    → OnlyOf s h
    → OnlyOf s (run_client_fails k h (songguo.Prelude.map (λ t. (s, t)) ts))
unfolding run_client_fails
run-OnlyOf k s h [] l v = v
run-OnlyOf k s h (t ∷ ts) l v =
    run-OnlyOf k s (fold_client_fail k s h t).0 ts l (fold_client_fail-OnlyOf k s t h l v)

-- One session that is rejected any number of times demotes no vendor, where the threshold is two
-- sessions or more.
pub one_session_harmless :
    (k : Knobs) (s : String) (ts : List ℕ)
    → 2 ≤ k.client_fail_threshold
    → (run_client_fails k unreported (songguo.Prelude.map (λ t. (s, t)) ts)).demotions ≡ 0
one_session_harmless k s ts l = (run-OnlyOf k s unreported ts l (refl, inl refl)).0
