-- ===== src/Outcome/Tests.antt =====
-- The outcome of a few calls.
use songguo.Prelude.{◌≡◌, refl}
use songguo.Prelude.Int.{pos}
use songguo.Outcome.{outcome_of, denied_budget, vendor_error, truncated}

denied : outcome_of (pos 402) "budget_exceeded" ≡ denied_budget
unfolding outcome_of
denied = refl

forwarded : outcome_of (pos 402) "" ≡ vendor_error
unfolding outcome_of
forwarded = refl

broken : outcome_of (pos 200) "stream_error: EOF" ≡ truncated
unfolding outcome_of
broken = refl
