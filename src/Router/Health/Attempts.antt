-- ===== src/Router/Health/Attempts.antt =====
-- backend/internal/router/health.go: whose health a reported attempt changes, and how.
pub mod Rank
pub mod Reports
pub mod Watched
pub mod Steps
pub mod History
pub mod Tests
use Prim.Native.String.{◌++◌ as str_append}
use songguo.Prelude.{
  ℕ, ◌+◌, Bool, true, false, ◌||◌, ◌&&◌, not, Option, none, some, List, [], ◌∷◌, ◌++◌, String, ltb,
  if◌then◌else◌, str_eq, ◌==◌,
}
use songguo.Prelude.Map.{Map, lookup, insert}
use songguo.Config.{Vendor}
use songguo.Config.Snapshot.{Snapshot}
use songguo.Router.Health.{
  Signal, ok, fail, fail_hard, fail_credential, fail_model, fail_client, neutral, Knobs,
  VendorHealth, Transition, unreported, add_duration, is_cooling, fold_report, fold_client_fail,
}

-- The part of the router that outcomes change.
pub record State : Type 0 where
  pub health : Map VendorHealth
  pub model_cooling : Map ℕ

pub health_of : State → String → VendorHealth
health_of s name = elim (lookup name s.health) [ none ↦ unreported | some h ↦ h ]

store_report : State → String → VendorHealth × Transition → State × Transition
store_report s name (h, tr) = (record s { health = insert name h s.health }, tr)

-- `applyReport` and `applyClientFail`
pub apply_report : Knobs → State → String → Signal → ℕ → State × Transition
unfolding store_report
apply_report k s name sig now = store_report s name (fold_report k sig (health_of s name) now)

pub apply_client_fail : Knobs → State → String → String → ℕ → State × Transition
unfolding store_report
apply_client_fail k s name session now =
    store_report s name (fold_client_fail k session (health_of s name) now)

-- `modelKey`
pub model_key : String → String → String
model_key vendor model = str_append vendor (str_append "\0" model)

-- `modelIsCooling`
unfoldable pub model_is_cooling : State → String → String → ℕ → Bool
unfolding model_key
model_is_cooling s vendor model now =
    if str_eq model "" then false else elim (lookup (model_key vendor model) s.model_cooling) [
      | none ↦ false
      | some until ↦ ltb now until
    ]

pub record Attempt : Type 0 where
  pub vendor : String
  pub credential : String
  pub model : String
  pub session : String

sharing : String → String → List Vendor → List String
sharing credential observed [] = []
sharing credential observed (v ∷ vs) =
    let rest = sharing credential observed vs in
    if str_eq v.credential.id credential && not (str_eq v.name observed)
    then v.name ∷ rest
    else rest

-- `vendorsSharingCredential`; there may be no snapshot.
pub vendors_sharing : Option Snapshot → String → String → List String
unfolding sharing
vendors_sharing snap credential observed = elim snap [
  | none ↦ observed ∷ []
  | some s ↦ observed ∷ sharing credential observed s.vendors
]

-- What `logTransition` writes.
pub data Log : Type 0 where
  vendor_dead vendor_demoted vendor_restored model_demoted : String → Log

pub log_transition : String → Transition → List Log
log_transition name tr =
    if tr.died
    then vendor_dead name ∷ []
    else if tr.demoted
    then vendor_demoted name ∷ []
    else if tr.restored
    then vendor_restored name ∷ []
    else []

logged : String → State × Transition → State × List Log
unfolding log_transition
logged name (s, tr) = (s, log_transition name tr)

-- `for _, name := range names { ... }`
pub report_all : Knobs → State → List String → Signal → ℕ → State × List Log
unfolding logged
report_all k s [] sig now = (s, [])
report_all k s (name ∷ names) sig now =
    let (s', logs) = logged name (apply_report k s name sig now) in
    let (s'', more) = report_all k s' names sig now in (s'', logs ++ more)

-- The vendors that a signal concerns: those that share the credential, or the one observed.
pub concerned : Option Snapshot → Attempt → Signal → List String
concerned snap a fail_credential =
    if str_eq a.credential "" then a.vendor ∷ [] else vendors_sharing snap a.credential a.vendor
concerned snap a _ = a.vendor ∷ []

demote_model : Knobs → State → Attempt → ℕ → State × List Log
unfolding model_key add_duration
demote_model k s a now = (
  record s {
    model_cooling =
        insert (model_key a.vendor a.model) (add_duration now k.model_cooldown) s.model_cooling;
  },
  model_demoted a.vendor ∷ [],
)

-- The signals of `ReportAttempt` that have a scope of their own, and the rest.
pub report_signal : Knobs → Option Snapshot → State → Attempt → Signal → ℕ → State × List Log
unfolding logged demote_model report_all concerned
report_signal k snap s a neutral now = (s, [])
report_signal k snap s a fail_client now =
    if str_eq a.session ""
    then (s, [])
    else logged a.vendor (apply_client_fail k s a.vendor a.session now)
report_signal k snap s a fail_model now =
    if str_eq a.model "" then (s, []) else demote_model k s a now
report_signal k snap s a ok now = report_all k s (concerned snap a ok) ok now
report_signal k snap s a fail now = report_all k s (concerned snap a fail) fail now
report_signal k snap s a fail_hard now = report_all k s (concerned snap a fail_hard) fail_hard now
report_signal k snap s a fail_credential now =
    report_all k s (concerned snap a fail_credential) fail_credential now

-- `ReportAttempt`
pub report_attempt : Knobs → Option Snapshot → State → Attempt → Signal → ℕ → State × List Log
unfolding report_signal
report_attempt k snap s a sig now =
    if str_eq a.vendor "" then (s, []) else report_signal k snap s a sig now

pub data Tier : Type 0 where
  live cooling dead : Tier

abbrev pub tier_rank : Tier → ℕ
tier_rank live = 0
tier_rank cooling = 1
tier_rank Tier.dead = 2

-- `healthRank`
unfoldable pub health_rank : State → String → ℕ → Tier
unfolding is_cooling
health_rank s name now = elim (lookup name s.health) [
  | none ↦ live
  | some h ↦ if h.dead then Tier.dead else if is_cooling h now then cooling else live
]

-- `ResetHealth`
pub reset_health : State → State
reset_health s = record { health = []; model_cooling = [] }
