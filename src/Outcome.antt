-- ===== src/Outcome.antt =====
-- backend/internal/calls/calls.go: what a finished call says, and about whom.
pub mod Slugs
pub mod Tests
use text.Mathlib.Text.{starts_with}
use songguo.Prelude.{Bool, true, false, ◌&&◌, ◌||◌, not, String, if◌then◌else◌, str_eq}
use songguo.Prelude.Int.{ℤ, pos, negsuc, eqb_ℤ, leb_ℤ}

abbrev pub status_pending : ℤ
status_pending = negsuc 0

pub data Outcome : Type 0 where
  in_flight : Outcome
  abandoned : Outcome
  ok : Outcome
  vendor_error : Outcome
  truncated : Outcome
  transport_error : Outcome
  no_route : Outcome
  build_failed : Outcome
  unmatched : Outcome
  denied_budget : Outcome
  denied_rate : Outcome
  denied_scope : Outcome
  client_gone : Outcome
  upstream_failed : Outcome
  unknown : Outcome

-- `OutcomeOf`: the last switch, on the slugs that carry no detail.
unfoldable pub outcome_of_slug : String → Outcome
outcome_of_slug err =
    if str_eq err "client_gone"
    then client_gone
    else if str_eq err "budget_exceeded"
    then denied_budget
    else if str_eq err "rate_limited"
    then denied_rate
    else if str_eq err "model_not_allowed" || str_eq err "vendor_not_allowed"
    then denied_scope
    else if str_eq err "no_upstream"
    then no_route
    else if str_eq err "request_build_failed"
    then build_failed
    else if str_eq err "upstream_error"
    then upstream_failed
    else unknown

-- `OutcomeOf`: the switch on prefixes, and what follows it.
unfoldable pub outcome_of_error : String → Outcome
unfolding outcome_of_slug
outcome_of_error err =
    if starts_with err "transport_error: "
    then transport_error
    else if starts_with err "stream_error: "
    then truncated
    else if starts_with err "unmatched: "
    then unmatched
    else outcome_of_slug err

-- `OutcomeOf`: a call without a slug.
unfoldable pub outcome_of_status : ℤ → Outcome
outcome_of_status status =
    if eqb_ℤ status (pos 0)
    then transport_error
    else if leb_ℤ (pos 400) status
    then vendor_error
    else ok

-- `OutcomeOf`
unfoldable pub outcome_of : ℤ → String → Outcome
unfolding outcome_of_error outcome_of_status
outcome_of status err =
    if eqb_ℤ status status_pending
    then in_flight
    else if str_eq err ""
    then outcome_of_status status
    else outcome_of_error err

pub data Blame : Type 0 where
  provider : Blame
  gateway : Blame
  caller : Blame
  nobody : Blame

-- `BlameFor`
unfoldable pub blame_for : Outcome → Blame
blame_for ok = provider
blame_for vendor_error = provider
blame_for truncated = provider
blame_for transport_error = provider
blame_for no_route = gateway
blame_for build_failed = gateway
blame_for unmatched = gateway
blame_for denied_budget = gateway
blame_for denied_rate = gateway
blame_for denied_scope = gateway
blame_for client_gone = caller
blame_for in_flight = nobody
blame_for abandoned = nobody
blame_for upstream_failed = nobody
blame_for unknown = nobody

abbrev pub is_provider : Blame → Bool
is_provider provider = true
is_provider _ = false

abbrev pub is_ok : Outcome → Bool
is_ok ok = true
is_ok _ = false

-- `IsProviderFailure`
unfoldable pub is_provider_failure : Outcome → Bool
unfolding blame_for
is_provider_failure o = is_provider (blame_for o) && not (is_ok o)

-- `IsPolicyDenial`
unfoldable pub is_policy_denial : Outcome → Bool
is_policy_denial denied_budget = true
is_policy_denial denied_rate = true
is_policy_denial _ = false
