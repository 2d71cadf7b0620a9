-- ===== src/RateLimit/Tests.antt =====
-- Two users at the limiter.
use songguo.Prelude.{◌*◌, ◌≡◌, refl, min, List, [], ◌∷◌, String, arith}
use songguo.Prelude.Map.{lookup, insert}
use songguo.Prelude.Int.{ℤ, pos}
use songguo.Prelude.Time.{second}
use songguo.RateLimit.{new_rate_limiter}
use songguo.RateLimit.Windows.{UserCall, attempts_of, admitted, admitted_lem}

abbrev two_each : String → ℤ
two_each k = pos 2

abbrev later_attempts : List UserCall
later_attempts =
    record { key = "ann"; now = 2 * second }
    ∷ record { key = "bob"; now = 3 * second }
    ∷ record { key = "ann"; now = 4 * second }
    ∷ []

abbrev all_attempts : List UserCall
all_attempts = record { key = "ann"; now = second } ∷ later_attempts

third_refused : admitted two_each "ann" new_rate_limiter all_attempts ≡ 2
unfolding admitted lookup insert
third_refused = refl

admitted_example :
    admitted two_each "ann" new_rate_limiter all_attempts ≡ min (attempts_of "ann" all_attempts) 2
unfolding lookup
admitted_example =
    admitted_lem two_each "ann" 2 second new_rate_limiter later_attempts refl (omega arith) refl
      ((λ h. omega arith), ((λ h. omega arith), ((λ h. omega arith), tt)))
