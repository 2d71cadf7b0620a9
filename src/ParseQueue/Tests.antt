-- ===== src/ParseQueue/Tests.antt =====
-- A budget of ten bytes, and two jobs that do not fit together.
use songguo.Prelude.{ℕ, ◌≡◌, refl, [], ◌∷◌, String, arith}
use songguo.ParseQueue.{Job, Pipeline, Sizes, start, submit, fresh, after, submits}
use songguo.ParseQueue.Bounds.{IsBounded, Reach-IsBounded}

abbrev job : String → ℕ → Job
job id n = record { call_id = id; req_body = n; resp_body = 0 }

abbrev small : Sizes
small = record { slots = 2; budget = 10; workers = 1 }

-- An empty queue takes a job of any size.
large_first : (submit small start (job "a" 99)).entering ≡ job "a" 99 ∷ []
unfolding submit
large_first = refl

then_none : (submit small (submit small start (job "a" 99)) (job "b" 1)).leaving ≡ job "b" 1 ∷ []
unfolding submit
then_none = refl

abbrev crowded : Pipeline
crowded = submit small (submit small start (job "a" 99)) (job "b" 1)

Reach-IsBounded_example : IsBounded small 99 crowded
Reach-IsBounded_example = Reach-IsBounded small 99 crowded (omega arith) (
    after (submit small start (job "a" 99)) crowded
      (after start (submit small start (job "a" 99)) fresh (submits (job "a" 99) (omega arith)))
      (submits (job "b" 1) (omega arith)))
