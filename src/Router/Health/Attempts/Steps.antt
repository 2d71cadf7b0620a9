-- ===== src/Router/Health/Attempts/Steps.antt =====
-- backend/internal/router/health.go: what one report leaves of a vendor's history.
use songguo.Prelude.{
  ℕ, ◌+◌, ◌≡◌, refl, inl, inr, true, false, ◌||◌, Option, List, [], ◌∷◌, ◌++◌, String, arith,
  if◌then◌else◌, str_eq, eq_iff, Bool-cases, subst,
}
use songguo.Config.Snapshot.{Snapshot}
use songguo.Router.Health.{
  Knobs, VendorHealth, Signal, ok, fail, fail_hard, fail_credential, fail_model, fail_client,
  neutral, Transition, demote, streak, fold_failure, fold_report, fold_client_fail,
}
use songguo.Router.Health.Attempts.{
  State, Attempt, Log, health_of, apply_report, apply_client_fail, store_report, log_transition,
  concerned, logged, report_all, report_signal,
}
use songguo.Router.Health.Ladder.{IsValid}
use songguo.Router.Health.Sessions.{noted, fold_client_fail-oldest, noted-IsDistinct}
use songguo.Router.Health.Attempts.Rank.{health_of-apply_report, health_of-apply_client_fail}
use songguo.Router.Health.Attempts.Watched.{demotions_in, is_ok, IsSound}

-- What a transition adds to the demotions.
abbrev pub adds : Transition → ℕ
adds tr = if tr.died || tr.demoted then 1 else 0

demotions_in-log :
    (j name : String) (tr : Transition)
    → demotions_in j (log_transition name tr) ≡ (if str_eq name j then adds tr else 0)
unfolding log_transition
demotions_in-log j name tr = ground arith

demotions_in-append :
    (j : String) (xs ys : List Log)
    → demotions_in j (xs ++ ys) ≡ demotions_in j xs + demotions_in j ys
demotions_in-append j [] ys = omega arith
demotions_in-append j (x ∷ xs) ys = omega (arith, demotions_in-append j xs ys)

apply_report_transition :
    (k : Knobs) (s : State) (name : String) (sig : Signal) (now : ℕ)
    → (apply_report k s name sig now).1 ≡ (fold_report k sig (health_of s name) now).1
unfolding apply_report store_report
apply_report_transition k s name sig now = refl

apply_client_fail_transition :
    (k : Knobs) (s : State) (name session : String) (now : ℕ)
    → (apply_client_fail k s name session now).1
      ≡ (fold_client_fail k session (health_of s name) now).1
unfolding apply_client_fail store_report
apply_client_fail_transition k s name session now = refl

named : (j name : String) → str_eq name j ≡ true → j ≡ name
named j name e = ground (arith, eq_iff name j)

pub add_nothing : (n : ℕ) → n + 0 ≡ n
add_nothing n = omega arith

add_logs :
    (n : ℕ) (j : String) (xs ys : List Log)
    → n + demotions_in j xs + demotions_in j ys ≡ n + demotions_in j (xs ++ ys)
add_logs n j xs ys = omega (arith, demotions_in-append j xs ys)

quiet_log :
    (n : ℕ) (j name : String) (tr : Transition)
    → str_eq name j ≡ false
    → n ≡ n + demotions_in j (log_transition name tr ++ [])
quiet_log n j name tr e =
    ground (arith, demotions_in-log j name tr, demotions_in-append j (log_transition name tr) [])

module _ (k : Knobs) (p : IsValid k) where
  fold_report-IsSound :
      (sig : Signal) (h : VendorHealth) (now : ℕ) (sessions : List String) (n : ℕ)
      → is_ok sig ≡ false
      → IsSound k sessions n h
      → IsSound k sessions (n + adds (fold_report k sig h now).1) (fold_report k sig h now).0
  unfolding fold_report fold_failure streak demote
  fold_report-IsSound ok h now sessions n e v = cc
  fold_report-IsSound fail h now sessions n e v =
      ground (arith, v.distinct, v.recorded, v.counted, v.verdict)
  fold_report-IsSound fail_hard h now sessions n e v =
      ground (arith, v.distinct, v.recorded, v.counted, v.verdict)
  fold_report-IsSound fail_credential h now sessions n e v =
      ground (arith, v.distinct, v.recorded, v.counted, v.verdict)
  fold_report-IsSound fail_model h now sessions n e v =
      ground (arith, v.distinct, v.recorded, v.counted, v.verdict)
  fold_report-IsSound fail_client h now sessions n e v =
      ground (arith, v.distinct, v.recorded, v.counted, v.verdict)
  fold_report-IsSound neutral h now sessions n e v =
      ground (arith, v.distinct, v.recorded, v.counted, v.verdict)

  fold_client_fail-IsSound :
      (s : String) (h : VendorHealth) (now : ℕ) (sessions : List String) (n : ℕ)
      → IsSound k sessions n h
      → IsSound k
          (noted s sessions)
          (n + adds (fold_client_fail k s h now).1)
          (fold_client_fail k s h now).0
  unfolding fold_client_fail demote
  fold_client_fail-IsSound s h now sessions n v = record {
    distinct = noted-IsDistinct s sessions v.distinct;
    recorded = fold_client_fail-oldest k s now sessions h v.recorded;
    counted = ground (arith, v.counted);
    verdict = ground (arith, v.counted, v.verdict);
  }

  -- A report to one vendor, seen from that one and from another.
  apply_report-IsSound :
      (s : State) (name : String) (sig : Signal) (now : ℕ) (j : String) (sessions : List String)
      (n : ℕ)
      → is_ok sig ≡ false
      → IsSound k sessions n (health_of s j)
      → IsSound k sessions
          (n + demotions_in j (log_transition name (apply_report k s name sig now).1))
          (health_of (apply_report k s name sig now).0 j)
  apply_report-IsSound s name sig now j sessions n e v =
      rw
        (
          health_of-apply_report k s name j sig now,
          demotions_in-log j name (apply_report k s name sig now).1,
          apply_report_transition k s name sig now,
        )
        (elim (Bool-cases (str_eq name j)) [
          | inl same ↦ rw same (
              fold_report-IsSound sig (health_of s name) now sessions n e
                (subst (λ i. IsSound k sessions n (health_of s i)) (named j name same) v))
          | inr other ↦ rw (other, add_nothing n) v
        ])

  pub report_all-IsSound :
      (s : State) (names : List String) (sig : Signal) (now : ℕ) (j : String)
      (sessions : List String) (n : ℕ)
      → is_ok sig ≡ false
      → IsSound k sessions n (health_of s j)
      → IsSound k sessions
          (n + demotions_in j (report_all k s names sig now).1)
          (health_of (report_all k s names sig now).0 j)
  unfolding report_all logged
  report_all-IsSound s [] sig now j sessions n e v = rw (add_nothing n) v
  report_all-IsSound s (x ∷ xs) sig now j sessions n e v =
      let logs = log_transition x (apply_report k s x sig now).1 in
      let rest = report_all k (apply_report k s x sig now).0 xs sig now in
      subst (λ m. IsSound k sessions m (health_of rest.0 j)) (add_logs n j logs rest.1)
        (report_all-IsSound (apply_report k s x sig now).0 xs sig now j sessions
          (n + demotions_in j logs) e (apply_report-IsSound s x sig now j sessions n e v))

  restored : (h : VendorHealth) (now : ℕ) → IsSound k [] 0 (fold_report k ok h now).0
  unfolding fold_report
  restored h now = ground (arith, p.dies)

  -- A success, seen from the vendor that served and from another.
  pub ok-IsSound :
      (snap : Option Snapshot) (s : State) (a : Attempt) (now : ℕ) (j : String)
      (sessions : List String) (n : ℕ)
      → IsSound k sessions n (health_of s j)
      → IsSound k
          (if str_eq a.vendor j then [] else sessions)
          (if str_eq a.vendor j then 0 else n + demotions_in j (report_signal k snap s a ok now).1)
          (health_of (report_signal k snap s a ok now).0 j)
  unfolding report_signal report_all concerned logged
  ok-IsSound snap s a now j sessions n v =
      rw (health_of-apply_report k s a.vendor j ok now) (elim (Bool-cases (str_eq a.vendor j)) [
        | inl same ↦ rw same (restored (health_of s a.vendor) now)
        | inr other ↦ rw other (
            subst (λ m. IsSound k sessions m (health_of s j))
              (quiet_log n j a.vendor (apply_report k s a.vendor ok now).1 other) v)
      ])

  pub client_fail-IsSound :
      (s : State) (name session : String) (now : ℕ) (j : String) (sessions : List String) (n : ℕ)
      → IsSound k sessions n (health_of s j)
      → IsSound k
          (if str_eq name j then noted session sessions else sessions)
          (n + demotions_in j (log_transition name (apply_client_fail k s name session now).1))
          (health_of (apply_client_fail k s name session now).0 j)
  client_fail-IsSound s name session now j sessions n v =
      rw
        (
          health_of-apply_client_fail k s name j session now,
          demotions_in-log j name (apply_client_fail k s name session now).1,
          apply_client_fail_transition k s name session now,
        )
        (elim (Bool-cases (str_eq name j)) [
          | inl same ↦ rw same (
              fold_client_fail-IsSound session (health_of s name) now sessions n
                (subst (λ i. IsSound k sessions n (health_of s i)) (named j name same) v))
          | inr other ↦ rw (other, add_nothing n) v
        ])
