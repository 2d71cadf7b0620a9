-- ===== src/ParseQueue/Idle.antt =====
-- backend/internal/proxy/pipeline.go: that an empty queue may refuse a job.
use songguo.Prelude.{
  ℕ, ◌+◌, ◌≤◌, ◌<◌, ◌≡◌, refl, subst, ap, true, false, List, [], ◌∷◌, ◌++◌, arith, length, ltb,
}
use songguo.ParseQueue.{
  Job, size, Pipeline, Sizes, start, over_budget, submit, try_send, finish_job, submits, sends,
  receives, finishes, Reach, fresh, after,
}

-- A state in which no job is let in, waits or is processed, where a job is refused all the same.
pub record IsRefusedIdle (z : Sizes) (largest : ℕ) (c : Job) : Type 0 where
  pub pipeline : Pipeline
  pub reached : Reach z largest pipeline
  pub entering : pipeline.entering ≡ []
  pub jobs : pipeline.jobs ≡ []
  pub working : pipeline.working ≡ []
  pub refused : (submit z pipeline c).leaving ≡ c ∷ pipeline.leaving

refused_lem :
    (z : Sizes) (p : Pipeline) (j : Job)
    → over_budget z (p.queued_bytes + size j) (size j) ≡ true
    → submit z p j ≡ record p { queued_bytes = p.queued_bytes + size j; leaving = j ∷ p.leaving }
unfolding submit
refused_lem z p j y = rw y refl

let_in_lem :
    (z : Sizes) (p : Pipeline) (j : Job)
    → over_budget z (p.queued_bytes + size j) (size j) ≡ false
    → submit z p j ≡ record p { queued_bytes = p.queued_bytes + size j; entering = j ∷ p.entering }
unfolding submit
let_in_lem z p j n = rw n refl

sent_lem :
    (z : Sizes) (p : Pipeline) (j : Job) (rest : List Job)
    → ltb (length p.jobs) z.slots ≡ true
    → try_send z p j rest ≡ record p { entering = rest; jobs = p.jobs ++ j ∷ [] }
unfolding try_send
sent_lem z p j rest y = rw y refl

module _ (z : Sizes) (largest : ℕ) (a b c : Job) where
  -- `a` was let in, `b` was refused beside it, and then `a` is processed before `b` is taken off.
  abbrev both : List Job → List Job → List Job → Pipeline
  both entering jobs working = record {
    queued_bytes = 0 + size a + size b;
    jobs = jobs;
    entering = entering;
    leaving = b ∷ [];
    working = working;
    dropped = [];
    processed = [];
  }

  abbrev one : Pipeline
  one = record {
    queued_bytes = 0 + size a;
    jobs = [];
    entering = a ∷ [];
    leaving = [];
    working = [];
    dropped = [];
    processed = [];
  }

  -- Where submitters and workers interleave, a job may be refused although none is let in, waits or is
  -- processed: if a job of some bytes was refused beside one that fits the budget, a third that exceeds
  -- the budget together with the second is refused until the bytes of the second are taken off.
  pub submit_refuses_idle :
      size a ≤ largest
      → size b ≤ largest
      → 0 < z.slots
      → 0 < z.workers
      → 0 < size a
      → size a ≤ z.budget
      → z.budget < size a + size b
      → 0 < size b
      → z.budget < size b + size c
      → IsRefusedIdle z largest c
  submit_refuses_idle la lb s w pa fa ov pb oc =
      let r1 : Reach z largest one =
        subst (Reach z largest) (let_in_lem z start a (ground (arith, fa)))
          (after start _ fresh (submits a la)) in
      let r2 : Reach z largest (both (a ∷ []) [] []) =
        subst (Reach z largest) (refused_lem z one b (ground (arith, fa, ov, pa)))
          (after one _ r1 (submits b lb)) in
      let r3 : Reach z largest (both [] (a ∷ []) []) =
        subst (Reach z largest) (sent_lem z (both (a ∷ []) [] []) a [] (ground (arith, s)))
          (after (both (a ∷ []) [] []) _ r2 (sends [] [] a refl)) in
      let r4 : Reach z largest (both [] [] (a ∷ [])) =
        after (both [] (a ∷ []) []) _ r3 (receives a [] refl w) in
      let p = finish_job (both [] [] (a ∷ [])) a [] in
      record {
        pipeline = p;
        reached = after (both [] [] (a ∷ [])) _ r4 (finishes [] [] a refl);
        entering = refl;
        jobs = refl;
        working = refl;
        refused = ap (λ q. q.leaving) (refused_lem z p c (ground (arith, pa, pb, oc, ov, fa)));
      }
