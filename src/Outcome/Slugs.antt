-- ===== src/Outcome/Slugs.antt =====
-- backend/internal/calls/calls.go: which stored pairs of a status and a slug count against whom.
use text.Mathlib.Text.{starts_with}
use songguo.Prelude.{◌≡◌, refl, false, ◌&&◌, ◌||◌, not, String, arith, if◌then◌else◌, str_eq}
use songguo.Prelude.Int.{ℤ, pos, eqb_ℤ, leb_ℤ}
use songguo.Outcome.{
  Outcome, status_pending, outcome_of_slug, outcome_of_error, outcome_of_status, outcome_of,
  is_provider_failure, blame_for,
}

slug-not_failure : (err : String) → is_provider_failure (outcome_of_slug err) ≡ false
unfolding outcome_of_slug is_provider_failure blame_for
slug-not_failure err = ground arith

error-failure :
    (err : String)
    → is_provider_failure (outcome_of_error err)
      ≡ (starts_with err "transport_error: " || starts_with err "stream_error: ")
unfolding outcome_of_error is_provider_failure blame_for
error-failure err = ground (arith, slug-not_failure err)

status-failure :
    (status : ℤ)
    → is_provider_failure (outcome_of_status status)
      ≡ (eqb_ℤ status (pos 0) || leb_ℤ (pos 400) status)
unfolding outcome_of_status is_provider_failure blame_for
status-failure status = ground arith

pending-not_failure : is_provider_failure Outcome.in_flight ≡ false
unfolding is_provider_failure blame_for
pending-not_failure = refl

-- What counts against a provider: a call that is not pending and either carries no slug and has
-- status 0 or a status from 400 on, or carries a slug that reports a transport or stream error.
pub failure_lem :
    (status : ℤ) (err : String)
    → is_provider_failure (outcome_of status err) ≡ (
        not (eqb_ℤ status status_pending)
        && (if str_eq err ""
            then eqb_ℤ status (pos 0) || leb_ℤ (pos 400) status
            else starts_with err "transport_error: " || starts_with err "stream_error: "))
unfolding outcome_of
failure_lem status err =
    ground (arith, error-failure err, status-failure status, pending-not_failure)
