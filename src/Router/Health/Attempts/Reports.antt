-- ===== src/Router/Health/Attempts/Reports.antt =====
-- backend/internal/router/health.go: which vendors a report can reach.
use songguo.Prelude.{ℕ, ◌≡◌, refl, false, Option, List, [], ◌∷◌, String, arith}
use songguo.Config.Snapshot.{Snapshot}
use songguo.Router.Health.{
  Knobs, Signal, ok, fail, fail_hard, fail_credential, fail_model, fail_client, neutral, is_seen,
}
use songguo.Router.Health.Attempts.{
  State, Attempt, health_of, apply_report, concerned, logged, report_all, report_signal,
  report_attempt, demote_model,
}
use songguo.Router.Health.Attempts.Rank.{health_of-apply_report, health_of-apply_client_fail}

report_all_other :
    (k : Knobs) (s : State) (names : List String) (j : String) (sig : Signal) (now : ℕ)
    → is_seen j names ≡ false
    → health_of (report_all k s names sig now).0 j ≡ health_of s j
unfolding report_all logged
report_all_other k s [] j sig now h = refl
report_all_other k s (x ∷ xs) j sig now h = ground (
  arith,
  health_of-apply_report k s x j sig now,
  report_all_other k (apply_report k s x sig now).0 xs j sig now,
)

report_signal_other :
    (k : Knobs) (snap : Option Snapshot) (s : State) (a : Attempt) (sig : Signal) (now : ℕ)
    (j : String)
    → is_seen j (concerned snap a sig) ≡ false
    → health_of (report_signal k snap s a sig now).0 j ≡ health_of s j
unfolding report_signal logged demote_model
report_signal_other k snap s a ok now j h = report_all_other k s (concerned snap a ok) j ok now h
report_signal_other k snap s a fail now j h =
    report_all_other k s (concerned snap a fail) j fail now h
report_signal_other k snap s a fail_hard now j h =
    report_all_other k s (concerned snap a fail_hard) j fail_hard now h
report_signal_other k snap s a fail_credential now j h =
    report_all_other k s (concerned snap a fail_credential) j fail_credential now h
report_signal_other k snap s a fail_model now j h = unfold health_of in ground arith
report_signal_other k snap s a fail_client now j h =
    let h' : is_seen j (a.vendor ∷ []) ≡ false = unfold concerned in h in
    ground (arith, h', health_of-apply_client_fail k s a.vendor j a.session now)
report_signal_other k snap s a neutral now j h = refl

-- A report reaches no vendor but those that it concerns: the vendor that was observed and, for a
-- rejected credential, the vendors of the snapshot that share it.
pub report_attempt_other :
    (k : Knobs) (snap : Option Snapshot) (s : State) (a : Attempt) (sig : Signal) (now : ℕ)
    (j : String)
    → is_seen j (concerned snap a sig) ≡ false
    → health_of (report_attempt k snap s a sig now).0 j ≡ health_of s j
unfolding report_attempt
report_attempt_other k snap s a sig now j h =
    ground (arith, report_signal_other k snap s a sig now j h)
