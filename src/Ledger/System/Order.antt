-- ===== src/Ledger/System/Order.antt =====
-- backend/internal/ledger/ledger.go: the order in which records are written, and what is dropped.
use songguo.Prelude.{
  Bool, ◌≢◌, All, if◌then◌else◌, ℕ, ◌+◌, ◌≤◌, ◌<◌, ◌≡◌, ap, sym, ◌∙◌, Option, none, some, List, [],
  ◌∷◌, ◌++◌, arith, length, length-append,
}
use mathlib.Core.List.{append_assoc}
use songguo.Prelude.Int.{ℤ}
use songguo.Ledger.{Op, payload, Answer, set_payload_budget, admit, send, finish_apply, write_lag}
use songguo.Ledger.System.{
  System, Step, admits, sends, takes, finishes, samples, Shed, body_size, Reach, here, next, start,
  admitted, sent, taken, finished, sampled,
}

abbrev pub in_hand : Option Op → List Op
in_hand none = []
in_hand (some op) = op ∷ []

-- An operation as its caller knows it, without the marks that `Submit` puts on it.
abbrev pub plain : Op → Op
plain op = record op { payload_bytes = 0; submitted = 0 }

-- How many operations pass a test.
abbrev pub count : (Op → Bool) → List Op → ℕ
count p [] = 0
count p (op ∷ ops) = (if p (plain op) then 1 else 0) + count p ops

count-append : (p : Op → Bool) (xs ys : List Op) → count p (xs ++ ys) ≡ count p xs + count p ys
count-append p [] ys = omega arith
count-append p (x ∷ xs) ys = omega (arith, count-append p xs ys)

-- A captured body that did not fit: with a budget, other bytes pending, and these and its own beyond
-- the budget.
pub record IsUnfit (budget : ℕ) (x : Shed) : Type 0 where
  pub is_payload : x.op.kind ≡ payload
  pub has_body : x.op.body ≢ none
  pub limited : 0 < budget
  pub crowded : 0 < x.pending
  pub beyond : budget < x.pending + body_size x.op

abbrev pub ops_of : List Shed → List Op
ops_of [] = []
ops_of (x ∷ xs) = x.op ∷ ops_of xs

-- What the queue promises. `kept` holds of every test, so that it says of every operation that it was
-- submitted as often as it waits, was taken and was shed, together.
pub record IsOrdered (s : System) : Type 0 where
  pub fifo : s.accepted ≡ s.applied ++ (in_hand s.current ++ s.writer.ops)
  pub bounded : length s.writer.ops ≤ s.writer.capacity
  pub counted : s.writer.written + s.writer.failed ≡ length s.applied
  pub kept :
      (p : Op → Bool)
      → count p s.submitted ≡ count p s.waiting + count p s.accepted + count p (ops_of s.shed)
  pub unfit : All (IsUnfit s.writer.payload_budget) s.shed
  pub shed_count : length s.shed ≡ s.writer.payloads_shed

admitted-IsOrdered : (op : Op) (now : ℕ) (s : System) → IsOrdered s → IsOrdered (admitted op now s)
unfolding admit
admitted-IsOrdered op now s v = record {
  fifo = ground (arith, v.fifo);
  bounded = ground (arith, v.bounded);
  counted = ground (arith, v.counted);
  kept = λ p. ground (arith, v.kept p);
  unfit = ground (arith, v.unfit);
  shed_count = ground (arith, v.shed_count);
}

sent-IsOrdered :
    (xs : List Op) (op : Op) (ys : List Op) (waited : Bool) (s : System)
    → s.waiting ≡ xs ++ op ∷ ys
    → length s.writer.ops < s.writer.capacity
    → IsOrdered s
    → IsOrdered (sent xs op ys waited s)
unfolding send
sent-IsOrdered xs op ys waited s e r v = record {
  fifo = rw v.fifo (simp append_assoc);
  bounded = omega (arith, length-append s.writer.ops (op ∷ []));
  counted = v.counted;
  kept = λ p. omega (
    arith,
    v.kept p,
    ap (count p) e,
    count-append p xs (op ∷ ys),
    count-append p xs ys,
    count-append p s.accepted (op ∷ []),
  );
  unfit = v.unfit;
  shed_count = v.shed_count;
}

taken-IsOrdered :
    (op : Op) (rest : List Op) (s : System)
    → s.writer.ops ≡ op ∷ rest
    → s.current ≡ none
    → IsOrdered s
    → IsOrdered (taken op rest s)
taken-IsOrdered op rest s e n v = record {
  fifo = ground (arith, v.fifo);
  bounded = omega (arith, ap length e, v.bounded);
  counted = v.counted;
  kept = v.kept;
  unfit = v.unfit;
  shed_count = v.shed_count;
}

finished-IsOrdered :
    (op : Op) (answers : ℕ → Answer) (now : ℕ) (s : System)
    → s.current ≡ some op
    → IsOrdered s
    → IsOrdered (finished op answers now s)
unfolding finish_apply
finished-IsOrdered op answers now s e v =
    let moved : s.accepted ≡ (s.applied ++ op ∷ []) ++ s.writer.ops =
      v.fifo ∙ rw e (sym (append_assoc s.applied (op ∷ []) s.writer.ops)) in
    ground (arith, length-append s.applied (op ∷ []), moved)

sampled-IsOrdered : (now : ℕ) (s : System) → IsOrdered s → IsOrdered (sampled now s)
unfolding write_lag
sampled-IsOrdered now s v = ground arith

Step-IsOrdered : {s t : System} → Step s t → IsOrdered s → IsOrdered t
Step-IsOrdered (admits op now s b) v = admitted-IsOrdered op now s v
Step-IsOrdered (sends xs op ys waited s e r) v = sent-IsOrdered xs op ys waited s e r v
Step-IsOrdered (takes op rest s e n) v = taken-IsOrdered op rest s e n v
Step-IsOrdered (finishes op answers now s e) v = finished-IsOrdered op answers now s e v
Step-IsOrdered (samples now s) v = sampled-IsOrdered now s v

-- However the requests and the writer take turns, the operations that were written or failed, the
-- one in hand and those in the queue are, in this order, those that the queue has taken; the queue
-- never holds more than its capacity; every operation that was submitted is waiting for the queue,
-- was taken by it or was shed, as often in all as it was submitted; and what was shed are captured
-- bodies only, as many as `payloads_shed` counts, and each of them came while others were pending
-- and would have taken the pending bytes beyond the budget.
pub Reach-IsOrdered : (queue budget : ℤ) (s : System) → Reach (start queue budget) s → IsOrdered s
unfolding set_payload_budget
Reach-IsOrdered queue budget s here = ground arith
Reach-IsOrdered queue budget s (next r st) = Step-IsOrdered st (Reach-IsOrdered queue budget _ r)
