-- ===== src/Router/Health.antt =====
-- backend/internal/router/health.go: what the outcomes of past requests say about each vendor.
-- Instants and durations are nanoseconds; 0 is the zero `time.Time`. A duration is the bit pattern
-- of an int64. The counters stay far below the width of an int.
pub mod Ladder
pub mod Streaks
pub mod Sessions
pub mod Clients
pub mod Attempts
use songguo.Prelude.{
  ℕ, suc, ◌+◌, ◌-◌, ◌*◌, ◌%◌, Bool, true, false, ◌||◌, ◌&&◌, not, Option, none, some, List, [], ◌∷◌,
  ◌++◌, String, ltb, leb, ◌==◌, if◌then◌else◌, length, str_eq, map,
}
use songguo.Prelude.Map.{Map, lookup, insert}
use songguo.Config.{Vendor}
use songguo.Config.Snapshot.{Snapshot}

pub data Signal : Type 0 where
  ok fail fail_hard fail_credential fail_model fail_client neutral : Signal

-- An error of the transport, as `errors.Is` and `errors.As` answer about it: `dns` is the
-- `IsNotFound` of a `*net.DNSError`, where there is one.
pub record TransportError : Type 0 where
  pub canceled : Bool
  pub refused : Bool
  pub dns : Option Bool
  pub certificate : Bool
  pub unknown_authority : Bool
  pub hostname : Bool

-- `conclusiveTransportFailure`
pub is_conclusive : TransportError → Bool
is_conclusive e = if e.refused then true else elim e.dns [
  | some not_found ↦ not_found
  | none ↦ e.certificate || e.unknown_authority || e.hostname
]

classify_error : TransportError → Bool → Signal
unfolding is_conclusive
classify_error e client_gone =
    if client_gone || e.canceled then neutral else if is_conclusive e then fail_hard else fail

classify_status : ℕ → Signal
classify_status status =
    if status == 401
    then fail_credential
    else if status == 429
    then fail_model
    else if leb 500 status || status == 403
    then fail
    else if leb 400 status
    then fail_client
    else ok

-- `Classify`
unfoldable pub classify : ℕ → Option TransportError → Bool → Signal
unfolding classify_error classify_status
classify status err client_gone = elim err [
  | none ↦ classify_status status
  | some e ↦ classify_error e client_gone
]

pub record VendorHealth : Type 0 where
  pub consec_fail : ℕ
  pub open_until : ℕ
  pub demotions : ℕ
  pub dead : Bool
  pub client_fails : List String

pub record Knobs : Type 0 where
  pub fail_threshold : ℕ
  pub client_fail_threshold : ℕ
  pub client_fail_max : ℕ
  pub cooldown : ℕ
  pub cooldown_max : ℕ
  pub dead_after : ℕ
  pub model_cooldown : ℕ

abbrev pub sign_bit : ℕ
sign_bit = 9_223_372_036_854_775_808

abbrev pub word : ℕ
word = 18_446_744_073_709_551_616

-- `<` and doubling of int64 patterns, and `now.Add(d)`.
unfoldable pub lt_i64 : ℕ → ℕ → Bool
lt_i64 a b = ltb ((a + sign_bit) % word) ((b + sign_bit) % word)

unfoldable pub double_i64 : ℕ → ℕ
double_i64 d = d * 2 % word

pub add_duration : ℕ → ℕ → ℕ
add_duration t d = if ltb d sign_bit then t + d else t - (word - d)

-- The loop of `nextCooldown`, with the rounds that are left.
cooldown_loop : ℕ → ℕ → ℕ → ℕ
unfolding lt_i64 double_i64
cooldown_loop ℕ.zero max d = d
cooldown_loop (suc n) max d = elim (lt_i64 d max) [
  | true ↦ cooldown_loop n max (double_i64 d)
  | false ↦ d
]

-- `nextCooldown`
pub next_cooldown : Knobs → ℕ → ℕ
unfolding cooldown_loop lt_i64
next_cooldown k demotions =
    let d = cooldown_loop (demotions - 1) k.cooldown_max k.cooldown in
    if lt_i64 k.cooldown_max d then k.cooldown_max else d

pub record Transition : Type 0 where
  pub demoted : Bool
  pub restored : Bool
  pub died : Bool
  pub until : ℕ

abbrev pub no_change : Transition
no_change = record { demoted = false; restored = false; died = false; until = 0 }

abbrev pub unreported : VendorHealth
unreported = record {
  consec_fail = 0;
  open_until = 0;
  demotions = 0;
  dead = false;
  client_fails = [];
}

-- `!h.openUntil.IsZero() && now.Before(h.openUntil)`
pub is_cooling : VendorHealth → ℕ → Bool
is_cooling h now = not (h.open_until == 0) && ltb now h.open_until

-- `demoteLocked`
pub demote : Knobs → VendorHealth → ℕ → VendorHealth × Transition
unfolding next_cooldown add_duration
demote k h now =
    let n = h.demotions + 1 in
    let until = add_duration now (next_cooldown k n) in
    let dies = leb k.dead_after n && not h.dead in
    (
      record h { demotions = n; open_until = until; dead = h.dead || dies },
      record { demoted = true; restored = false; died = dies; until = until },
    )

-- The streak after one more failure; a conclusive one counts for the whole threshold.
streak : Knobs → Signal → ℕ → ℕ
streak k fail n = n + 1
streak k _ n = if ltb (n + 1) k.fail_threshold then k.fail_threshold else n + 1

fold_failure : Knobs → Signal → VendorHealth → ℕ → VendorHealth × Transition
unfolding streak demote
fold_failure k sig h now =
    let n = streak k sig h.consec_fail in
    let h' = record h { consec_fail = n } in
    if leb k.fail_threshold n then demote k h' now else (h', no_change)

-- The switch of `applyReport`.
pub fold_report : Knobs → Signal → VendorHealth → ℕ → VendorHealth × Transition
unfolding fold_failure is_cooling
fold_report k ok h now = (
  record { consec_fail = 0; open_until = 0; demotions = 0; dead = false; client_fails = [] },
  record no_change { restored = h.dead || is_cooling h now },
)
fold_report k fail h now = fold_failure k fail h now
fold_report k fail_hard h now = fold_failure k fail_hard h now
fold_report k fail_credential h now = fold_failure k fail_credential h now
fold_report k fail_model h now = (h, no_change)
fold_report k fail_client h now = (h, no_change)
fold_report k neutral h now = (h, no_change)

abbrev pub is_seen : String → List String → Bool
is_seen s [] = false
is_seen s (x ∷ xs) = str_eq x s || is_seen s xs

-- The body of `applyClientFail`.
pub fold_client_fail : Knobs → String → VendorHealth → ℕ → VendorHealth × Transition
unfolding demote
fold_client_fail k session h now =
    let h' = record h { client_fails = session ∷ h.client_fails } in
    if is_seen session h.client_fails || leb k.client_fail_max (length h.client_fails)
    then (h, no_change)
    else if ltb (length h'.client_fails) k.client_fail_threshold
    then (h', no_change)
    else demote k h' now
