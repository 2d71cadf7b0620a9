-- ===== src/ParseQueue.antt =====
-- backend/internal/proxy/pipeline.go: the queue of requests to parse, bounded by slots and by bytes. A
-- goroutine that submits adds to the counter, tries the channel and, where it drops its job, takes its
-- bytes off again; between these, other goroutines run.
pub mod Bounds
pub mod Idle
pub mod Tests
use songguo.Prelude.{
  ℕ, suc, ◌+◌, ◌-◌, ◌*◌, ◌^◌, ◌≤◌, ◌<◌, ◌≡◌, Bool, true, false, ◌&&◌, not, List, [], ◌∷◌, ◌++◌,
  String, length, if◌then◌else◌, ltb, ◌==◌,
}

-- `parseJob`, with the lengths of its two bodies.
pub record Job : Type 0 where
  pub call_id : String
  pub req_body : ℕ
  pub resp_body : ℕ

-- `size`
abbrev pub size : Job → ℕ
size j = j.req_body + j.resp_body

abbrev pub total : List Job → ℕ
total [] = 0
total (j ∷ js) = size j + total js

-- `parsePipeline`: the counter and the channel, then where its goroutines are: those that are about to
-- try the channel, those that are about to take a dropped job's bytes off, and the workers.
pub record Pipeline : Type 0 where
  pub queued_bytes : ℕ
  pub jobs : List Job
  pub entering : List Job
  pub leaving : List Job
  pub working : List Job
  pub dropped : List String
  pub processed : List String

-- The slots of the channel, the budget and the workers.
pub record Sizes : Type 0 where
  pub slots : ℕ
  pub budget : ℕ
  pub workers : ℕ

-- `newParsePipeline`, where a count that is not positive is given as 0.
abbrev pub sizes_of : ℕ → ℕ → Sizes
sizes_of workers queue = record {
  slots = if queue == 0 then 256 else queue;
  budget = 32 * 2 ^ 20;
  workers = if workers == 0 then 2 else workers;
}

abbrev pub start : Pipeline
start = record {
  queued_bytes = 0;
  jobs = [];
  entering = [];
  leaving = [];
  working = [];
  dropped = [];
  processed = [];
}

-- The test of `submit`, on what its addition returned.
abbrev pub over_budget : Sizes → ℕ → ℕ → Bool
over_budget z queued size = ltb 0 z.budget && ltb z.budget queued && not (queued == size)

-- `submit` up to its `select`.
unfoldable pub submit : Sizes → Pipeline → Job → Pipeline
submit z p j =
    let queued = p.queued_bytes + size j in
    if over_budget z queued (size j)
    then record p { queued_bytes = queued; leaving = j ∷ p.leaving }
    else record p { queued_bytes = queued; entering = j ∷ p.entering }

-- Its `select`, where `rest` are the other goroutines there.
unfoldable pub try_send : Sizes → Pipeline → Job → List Job → Pipeline
try_send z p j rest =
    if ltb (length p.jobs) z.slots
    then record p { entering = rest; jobs = p.jobs ++ j ∷ [] }
    else record p { entering = rest; leaving = j ∷ p.leaving }

-- What it does with a job that it drops.
abbrev pub drop : Pipeline → Job → List Job → Pipeline
drop p j rest = record p {
  queued_bytes = p.queued_bytes - size j;
  leaving = rest;
  dropped = j.call_id ∷ p.dropped;
}

-- `worker`: a round takes a job, and ends when it is processed.
abbrev pub receive : Pipeline → Job → List Job → Pipeline
receive p j rest = record p { jobs = rest; working = j ∷ p.working }

abbrev pub finish_job : Pipeline → Job → List Job → Pipeline
finish_job p j rest = record p {
  queued_bytes = p.queued_bytes - size j;
  working = rest;
  processed = j.call_id ∷ p.processed;
}

-- A step of one goroutine, where no job is larger than `largest`.
pub data Step (z : Sizes) (largest : ℕ) (p : Pipeline) : Pipeline → Type 0 where
  submits : (j : Job) → size j ≤ largest → Step z largest p (submit z p j)
  sends :
      (l r : List Job) (j : Job)
      → p.entering ≡ l ++ j ∷ r
      → Step z largest p (try_send z p j (l ++ r))
  drops : (l r : List Job) (j : Job) → p.leaving ≡ l ++ j ∷ r → Step z largest p (drop p j (l ++ r))
  receives :
      (j : Job) (rest : List Job)
      → p.jobs ≡ j ∷ rest
      → length p.working < z.workers
      → Step z largest p (receive p j rest)
  finishes :
      (l r : List Job) (j : Job)
      → p.working ≡ l ++ j ∷ r
      → Step z largest p (finish_job p j (l ++ r))

pub data Reach (z : Sizes) (largest : ℕ) : Pipeline → Type 0 where
  fresh : Reach z largest start
  after : (p q : Pipeline) → Reach z largest p → Step z largest p q → Reach z largest q
