-- ===== src/Router/Health/Attempts/History.antt =====
-- backend/internal/router/health.go: a vendor's health as a function of the reports and the log since
-- the last success that was reported of it.
use songguo.Prelude.{
  ℕ, ◌+◌, ◌≤◌, ◌≡◌, refl, inl, inr, Bool, true, false, ◌||◌, ◌&&◌, not, Option, none, some, List,
  [], ◌∷◌, ◌++◌, String, arith, leb, if◌then◌else◌, length, str_eq, eq_iff, Bool-cases, subst, sym,
}
use songguo.Config.Snapshot.{Snapshot}
use songguo.Router.Health.{
  Knobs, Signal, ok, fail, fail_hard, fail_credential, fail_model, fail_client, neutral,
}
use songguo.Router.Health.Attempts.{
  State, Attempt, Log, health_of, concerned, logged, report_signal, report_attempt, demote_model,
}
use songguo.Router.Health.Ladder.{IsValid}
use songguo.Router.Health.Attempts.Watched.{
  Report, Watched, is_about, sessions_after, demotions_after, watch, run_reports, untold, IsSound,
}
use songguo.Router.Health.Attempts.Steps.{
  add_nothing, report_all-IsSound, ok-IsSound, client_fail-IsSound,
}

about_nobody : (j : String) (r : Report) → str_eq r.attempt.vendor "" ≡ true → is_about j r ≡ false
about_nobody j r e = rw e refl

sessions_unheard :
    (j : String) (r : Report) (sessions : List String)
    → is_about j r ≡ false
    → sessions_after j r sessions ≡ sessions
sessions_unheard j r sessions e = ground arith

demotions_unheard :
    (j : String) (r : Report) (n : ℕ) → is_about j r ≡ false → demotions_after j r [] n ≡ n
demotions_unheard j r n e = ground arith

nobody_attempted :
    (k : Knobs) (r : Report) (s : State)
    → str_eq r.attempt.vendor "" ≡ true
    → report_attempt k r.snap s r.attempt r.signal r.now ≡ (s, [])
unfolding report_attempt
nobody_attempted k r s e = rw e refl

somebody_attempted :
    (k : Knobs) (r : Report) (s : State)
    → str_eq r.attempt.vendor "" ≡ false
    → report_attempt k r.snap s r.attempt r.signal r.now
      ≡ report_signal k r.snap s r.attempt r.signal r.now
unfolding report_attempt
somebody_attempted k r s e = rw e refl

-- Every vendor's health is what was reported and logged of it.
abbrev pub AllSound : Knobs → Watched → Type 0
AllSound k w = (j : String) → IsSound k (w.sessions j) (w.demotions j) (health_of w.state j)

module _ (k : Knobs) (p : IsValid k) where
  report_signal-IsSound :
      (snap : Option Snapshot) (s : State) (a : Attempt) (sig : Signal) (now : ℕ) (j : String)
      (sessions : List String) (n : ℕ)
      → str_eq a.vendor "" ≡ false
      → IsSound k sessions n (health_of s j)
      → let r : Report = record { snap = snap; attempt = a; signal = sig; now = now } in
        let done = report_signal k snap s a sig now in
        IsSound k (sessions_after j r sessions) (demotions_after j r done.1 n) (health_of done.0 j)
  unfolding report_signal logged demote_model health_of
  report_signal-IsSound snap s a ok now j sessions n e v =
      rw e (ok-IsSound k p snap s a now j sessions n v)
  report_signal-IsSound snap s a fail now j sessions n e v =
      report_all-IsSound k p s (concerned snap a fail) fail now j sessions n refl v
  report_signal-IsSound snap s a fail_hard now j sessions n e v =
      report_all-IsSound k p s (concerned snap a fail_hard) fail_hard now j sessions n refl v
  report_signal-IsSound snap s a fail_credential now j sessions n e v =
      report_all-IsSound k p s (concerned snap a fail_credential) fail_credential now j sessions n
        refl v
  report_signal-IsSound snap s a fail_model now j sessions n e v =
      elim (Bool-cases (str_eq a.model "")) [
        | inl m ↦ rw (m, add_nothing n) v
        | inr m ↦ rw (m, add_nothing n) v
      ]
  report_signal-IsSound snap s a fail_client now j sessions n e v =
      elim (Bool-cases (str_eq a.session "")) [
        | inl m ↦ rw (m, add_nothing n) v
        | inr m ↦ rw (m, e) (client_fail-IsSound k p s a.vendor a.session now j sessions n v)
      ]
  report_signal-IsSound snap s a neutral now j sessions n e v = rw (add_nothing n) v

  watch-AllSound : (r : Report) (w : Watched) → AllSound k w → AllSound k (watch k r w)
  watch-AllSound r w v j =
      let after = λ (done : State × List Log).
        IsSound k (sessions_after j r (w.sessions j)) (demotions_after j r done.1 (w.demotions j))
          (health_of done.0 j) in
      elim (Bool-cases (str_eq r.attempt.vendor "")) [
        | inl e ↦ subst after (sym (nobody_attempted k r w.state e)) (
            rw
              (
                sessions_unheard j r (w.sessions j) (about_nobody j r e),
                demotions_unheard j r (w.demotions j) (about_nobody j r e),
              )
              (v j))
        | inr e ↦ subst after (sym (somebody_attempted k r w.state e)) (
            report_signal-IsSound r.snap w.state r.attempt r.signal r.now j (w.sessions j)
              (w.demotions j) e (v j))
      ]

  run-AllSound : (rs : List Report) (w : Watched) → AllSound k w → AllSound k (run_reports k w rs)
  run-AllSound [] w v = v
  run-AllSound (r ∷ rs) w v = run-AllSound rs (watch k r w) (watch-AllSound r w v)

  untold-AllSound : AllSound k untold
  unfolding health_of songguo.Prelude.Map.lookup
  untold-AllSound j = ground (arith, p.dies)

  -- With valid knobs, after any reports to a router that was told nothing, the record of each
  -- vendor has the oldest `client_fail_max` of the distinct sessions that it rejected since the last
  -- success reported of it; its count of demotions is the number that the router logged since then;
  -- and it is dead exactly when that number has reached `dead_after`.
  pub run_reports-AllSound : (rs : List Report) → AllSound k (run_reports k untold rs)
  run_reports-AllSound rs = run-AllSound rs untold untold-AllSound
