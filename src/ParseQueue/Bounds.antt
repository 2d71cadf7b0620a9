-- ===== src/ParseQueue/Bounds.antt =====
-- backend/internal/proxy/pipeline.go: that the counter is right, and what the queue may hold.
use songguo.Prelude.{
  ℕ, ◌+◌, ◌≤◌, ◌<◌, ◌≡◌, ◌⊎◌, ap, ◌∙◌, List, [], ◌∷◌, ◌++◌, arith, inl, inr, length, length-append,
  ltb, tests, Bool-cases,
}
use songguo.ParseQueue.{
  Job, size, total, Pipeline, Sizes, over_budget, submit, try_send, drop, receive, finish_job, Step,
  submits, sends, drops, receives, finishes, Reach, fresh, after,
}

total-append : (xs ys : List Job) → total (xs ++ ys) ≡ total xs + total ys
total-append [] ys = omega arith
total-append (x ∷ xs) ys = omega (arith, total-append xs ys)

-- A list with one job taken out of it.
total-without : (xs l r : List Job) (j : Job) → xs ≡ l ++ j ∷ r → total xs ≡ size j + total (l ++ r)
total-without xs l r j e = ap total e ∙ omega (arith, total-append l (j ∷ r), total-append l r)

-- The bytes of the jobs that were let in and are not yet processed.
abbrev pub held : Pipeline → ℕ
held p = total p.entering + total p.jobs + total p.working

pub record IsBounded (z : Sizes) (largest : ℕ) (p : Pipeline) : Type 0 where
  pub counted : p.queued_bytes ≡ held p + total p.leaving
  pub slots : length p.jobs ≤ z.slots
  pub bytes : (held p ≤ z.budget) ⊎ (held p ≤ largest)

module _ (z : Sizes) (largest : ℕ) (positive : 0 < z.budget) where
  smaller : (a b : ℕ) → b ≤ a → (a ≤ z.budget) ⊎ (a ≤ largest) → (b ≤ z.budget) ⊎ (b ≤ largest)
  smaller a b l (inl h) = inl (omega (arith, l, h))
  smaller a b l (inr h) = inr (omega (arith, l, h))

  submit-IsBounded :
      (p : Pipeline) (j : Job)
      → size j ≤ largest
      → IsBounded z largest p
      → IsBounded z largest (submit z p j)
  unfolding submit
  submit-IsBounded p j l h = elim (Bool-cases (over_budget z (p.queued_bytes + size j) (size j))) [
    | inl y ↦ rw y (record { counted = omega (arith, h.counted); slots = h.slots; bytes = h.bytes })
    | inr n ↦ rw n (record {
      counted = omega (arith, h.counted);
      slots = h.slots;
      bytes = ground (arith, n, l, positive, h.counted);
    })
  ]

  try_send-IsBounded :
      (p : Pipeline) (l r : List Job) (j : Job)
      → p.entering ≡ l ++ j ∷ r
      → IsBounded z largest p
      → IsBounded z largest (try_send z p j (l ++ r))
  unfolding try_send
  try_send-IsBounded p l r j e h = elim (Bool-cases (ltb (length p.jobs) z.slots)) [
    | inl y ↦ rw y (record {
      counted =
          omega (arith, h.counted, total-without p.entering l r j e, total-append p.jobs (j ∷ []));
      slots = omega (tests, y, length-append p.jobs (j ∷ []));
      bytes =
          smaller (held p) _
            (omega (arith, total-without p.entering l r j e, total-append p.jobs (j ∷ []))) h.bytes;
    })
    | inr n ↦ rw n (record {
      counted = omega (arith, h.counted, total-without p.entering l r j e);
      slots = h.slots;
      bytes = smaller (held p) _ (omega (arith, total-without p.entering l r j e)) h.bytes;
    })
  ]

  drop-IsBounded :
      (p : Pipeline) (l r : List Job) (j : Job)
      → p.leaving ≡ l ++ j ∷ r
      → IsBounded z largest p
      → IsBounded z largest (drop p j (l ++ r))
  drop-IsBounded p l r j e h = record {
    counted = omega (arith, h.counted, total-without p.leaving l r j e);
    slots = h.slots;
    bytes = h.bytes;
  }

  receive-IsBounded :
      (p : Pipeline) (j : Job) (rest : List Job)
      → p.jobs ≡ j ∷ rest
      → IsBounded z largest p
      → IsBounded z largest (receive p j rest)
  receive-IsBounded p j rest e h = record {
    counted = omega (arith, h.counted, ap total e);
    slots = omega (arith, h.slots, ap length e);
    bytes = smaller (held p) _ (omega (arith, ap total e)) h.bytes;
  }

  finish_job-IsBounded :
      (p : Pipeline) (l r : List Job) (j : Job)
      → p.working ≡ l ++ j ∷ r
      → IsBounded z largest p
      → IsBounded z largest (finish_job p j (l ++ r))
  finish_job-IsBounded p l r j e h = record {
    counted = omega (arith, h.counted, total-without p.working l r j e);
    slots = h.slots;
    bytes = smaller (held p) _ (omega (arith, total-without p.working l r j e)) h.bytes;
  }

  Step-IsBounded :
      (p q : Pipeline) → Step z largest p q → IsBounded z largest p → IsBounded z largest q
  Step-IsBounded p _ (submits j l) h = submit-IsBounded p j l h
  Step-IsBounded p _ (sends l r j e) h = try_send-IsBounded p l r j e h
  Step-IsBounded p _ (drops l r j e) h = drop-IsBounded p l r j e h
  Step-IsBounded p _ (receives j rest e w) h = receive-IsBounded p j rest e h
  Step-IsBounded p _ (finishes l r j e) h = finish_job-IsBounded p l r j e h

-- However submitters and workers interleave, the counter is the bytes of the jobs that are let in or
-- about to be taken off, so that it never falls below zero; the channel is within its slots; and the jobs
-- that are let in hold no more than the budget or, if they do, than the largest job.
pub Reach-IsBounded :
    (z : Sizes) (largest : ℕ) (p : Pipeline)
    → 0 < z.budget
    → Reach z largest p
    → IsBounded z largest p
Reach-IsBounded z largest _ b fresh = record {
  counted = omega arith;
  slots = omega arith;
  bytes = inl (omega arith);
}
Reach-IsBounded z largest _ b (after p q r s) =
    Step-IsBounded z largest b p q s (Reach-IsBounded z largest p b r)
