-- ===== src/Router/Health/Attempts/Watched.antt =====
-- backend/internal/router/health.go: what was reported and logged of each vendor since the last success
-- that was reported of it.
use songguo.Prelude.{
  ℕ, ◌+◌, ◌≡◌, Bool, true, false, ◌&&◌, not, Option, List, [], ◌∷◌, String, leb, if◌then◌else◌,
  str_eq,
}
use songguo.Config.Snapshot.{Snapshot}
use songguo.Router.Health.{
  Knobs, VendorHealth, Signal, ok, fail, fail_hard, fail_credential, fail_model, fail_client,
  neutral,
}
use songguo.Router.Health.Attempts.{
  State, Attempt, Log, vendor_dead, vendor_demoted, vendor_restored, model_demoted, report_attempt,
}
use songguo.Router.Health.Sessions.{IsDistinct, noted, oldest}

-- A call of `ReportAttempt`.
pub record Report : Type 0 where
  pub snap : Option Snapshot
  pub attempt : Attempt
  pub signal : Signal
  pub now : ℕ

-- The log's demotions of a vendor; the one that marks it dead is logged as its death.
abbrev pub demotion : String → Log → ℕ
demotion j (vendor_dead name) = if str_eq name j then 1 else 0
demotion j (vendor_demoted name) = if str_eq name j then 1 else 0
demotion j (vendor_restored name) = 0
demotion j (model_demoted name) = 0

abbrev pub demotions_in : String → List Log → ℕ
demotions_in j [] = 0
demotions_in j (l ∷ logs) = demotion j l + demotions_in j logs

-- The report is about an attempt at the vendor.
abbrev pub is_about : String → Report → Bool
is_about j r = not (str_eq r.attempt.vendor "") && str_eq r.attempt.vendor j

-- The sessions of its rejections since the last success, after one more report, and its demotions
-- since then, after one more report and what it logged.
abbrev pub sessions_after : String → Report → List String → List String
sessions_after j r sessions = elim r.signal [
  | ok ↦ if is_about j r then [] else sessions
  | fail_client ↦
      if not (str_eq r.attempt.session "") && is_about j r
      then noted r.attempt.session sessions
      else sessions
  | fail ↦ sessions
  | fail_hard ↦ sessions
  | fail_credential ↦ sessions
  | fail_model ↦ sessions
  | neutral ↦ sessions
]

abbrev pub is_ok : Signal → Bool
is_ok ok = true
is_ok _ = false

abbrev pub demotions_after : String → Report → List Log → ℕ → ℕ
demotions_after j r logs n = if is_ok r.signal && is_about j r then 0 else n + demotions_in j logs

-- The router's state with what was reported and logged of each vendor since its last success.
pub record Watched : Type 0 where
  pub state : State
  pub sessions : String → List String
  pub demotions : String → ℕ

abbrev pub watch : Knobs → Report → Watched → Watched
watch k r w =
    let done = report_attempt k r.snap w.state r.attempt r.signal r.now in
    record {
      state = done.0;
      sessions = λ j. sessions_after j r (w.sessions j);
      demotions = λ j. demotions_after j r done.1 (w.demotions j);
    }

-- Reports in turn, from a router that was told nothing.
abbrev pub run_reports : Knobs → Watched → List Report → Watched
run_reports k w [] = w
run_reports k w (r ∷ rs) = run_reports k (watch k r w) rs

abbrev pub untold : Watched
untold = record {
  state = record { health = []; model_cooling = [] };
  sessions = λ j. [];
  demotions = λ j. 0;
}

-- The vendor's record has the oldest of the sessions, and it is dead exactly when its demotions have
-- reached the limit.
pub record IsSound (k : Knobs) (sessions : List String) (n : ℕ) (h : VendorHealth) : Type 0 where
  pub distinct : IsDistinct sessions
  pub recorded : h.client_fails ≡ oldest k.client_fail_max sessions
  pub counted : h.demotions ≡ n
  pub verdict : h.dead ≡ leb k.dead_after n
