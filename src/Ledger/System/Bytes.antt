-- ===== src/Ledger/System/Bytes.antt =====
-- backend/internal/ledger/ledger.go: the memory that captured bodies may take in the queue.
use songguo.Prelude.{Bool, ℕ, ◌+◌, ◌≤◌, ◌≡◌, ◌⊎◌, ap, none, some, List, [], ◌∷◌, ◌++◌, arith}
use songguo.Prelude.Int.{ℤ}
use songguo.Ledger.{Op, Answer, set_payload_budget, admit, send, finish_apply, write_lag}
use songguo.Ledger.System.{
  System, Step, admits, sends, takes, finishes, samples, Reach, here, next, start, admitted, sent,
  taken, finished, sampled,
}
use songguo.Ledger.System.Order.{in_hand}

-- The bytes that a list of operations holds.
abbrev pub bytes : List Op → ℕ
bytes [] = 0
bytes (op ∷ ops) = op.payload_bytes + bytes ops

bytes-append : (xs ys : List Op) → bytes (xs ++ ys) ≡ bytes xs + bytes ys
bytes-append [] ys = omega arith
bytes-append (x ∷ xs) ys = omega (arith, bytes-append xs ys)

-- The pending bytes are those of the operations that are not applied yet, and without a budget of
-- 0 they exceed it only where a single payload does.
pub record IsWithin (s : System) : Type 0 where
  pub charged :
      s.writer.payload_pending ≡ bytes s.waiting + (bytes (in_hand s.current) + bytes s.writer.ops)
  pub budgeted :
      (s.writer.payload_budget ≡ 0)
      ⊎ (s.writer.payload_pending ≤ s.writer.payload_budget)
      ⊎ (s.writer.payload_pending ≤ s.largest)

admitted-IsWithin :
    (op : Op) (now : ℕ) (s : System)
    → op.payload_bytes ≡ 0
    → IsWithin s
    → IsWithin (admitted op now s)
unfolding admit
admitted-IsWithin op now s z v = ground arith

sent-IsWithin :
    (xs : List Op) (op : Op) (ys : List Op) (waited : Bool) (s : System)
    → s.waiting ≡ xs ++ op ∷ ys
    → IsWithin s
    → IsWithin (sent xs op ys waited s)
unfolding send
sent-IsWithin xs op ys waited s e v = record {
  charged = omega (
    arith,
    v.charged,
    ap bytes e,
    bytes-append xs (op ∷ ys),
    bytes-append xs ys,
    bytes-append s.writer.ops (op ∷ []),
  );
  budgeted = v.budgeted;
}

taken-IsWithin :
    (op : Op) (rest : List Op) (s : System)
    → s.writer.ops ≡ op ∷ rest
    → s.current ≡ none
    → IsWithin s
    → IsWithin (taken op rest s)
taken-IsWithin op rest s e n v = record {
  charged = omega (arith, v.charged, ap bytes e, ap (λ c. bytes (in_hand c)) n);
  budgeted = v.budgeted;
}

finished-IsWithin :
    (op : Op) (answers : ℕ → Answer) (now : ℕ) (s : System)
    → s.current ≡ some op
    → IsWithin s
    → IsWithin (finished op answers now s)
unfolding finish_apply
finished-IsWithin op answers now s e v =
    let held : bytes (in_hand s.current) ≡ op.payload_bytes + 0 = ap (λ c. bytes (in_hand c)) e in
    ground (arith, held)

sampled-IsWithin : (now : ℕ) (s : System) → IsWithin s → IsWithin (sampled now s)
unfolding write_lag
sampled-IsWithin now s v = record { charged = v.charged; budgeted = v.budgeted }

Step-IsWithin : {s t : System} → Step s t → IsWithin s → IsWithin t
Step-IsWithin (admits op now s b) v = admitted-IsWithin op now s b v
Step-IsWithin (sends xs op ys waited s e r) v = sent-IsWithin xs op ys waited s e v
Step-IsWithin (takes op rest s e n) v = taken-IsWithin op rest s e n v
Step-IsWithin (finishes op answers now s e) v = finished-IsWithin op answers now s e v
Step-IsWithin (samples now s) v = sampled-IsWithin now s v

-- However the requests and the writer take turns, the pending bytes are exactly those of the bodies
-- that wait, are queued or are being written; and with a budget they never exceed it, unless the
-- largest body submitted so far alone is larger: then they are at most that body's.
pub Reach-IsWithin : (queue budget : ℤ) (s : System) → Reach (start queue budget) s → IsWithin s
unfolding set_payload_budget
Reach-IsWithin queue budget s here = ground arith
Reach-IsWithin queue budget s (next r st) = Step-IsWithin st (Reach-IsWithin queue budget _ r)
