-- ===== src/Ledger/System.antt =====
-- backend/internal/ledger/ledger.go: requests that submit operations and the one writer goroutine.
pub mod Order
pub mod Bytes
use songguo.Prelude.{
  ℕ, ◌+◌, ◌<◌, ◌≡◌, Bool, Option, none, some, List, [], ◌∷◌, ◌++◌, if◌then◌else◌, ltb, length,
}
use songguo.Prelude.Int.{ℤ}
use songguo.Ledger.{
  Op, Writer, Call, Answer, new, set_payload_budget, admit, is_over_budget, send, write,
  start_apply, finish_apply, write_lag,
}

-- An operation that `Submit` dropped, and how many bytes were pending then.
pub record Shed : Type 0 where
  pub op : Op
  pub pending : ℕ

-- `waiting` are the operations that `Submit` has admitted and the channel has not taken, `current`
-- is the one in `apply`. `submitted` lists what `Submit` was called with and `shed` what it
-- dropped, the last one first; `accepted` and `applied` list the operations that the channel took and
-- that `apply` is done with, both in order; and `largest` is the size of the largest payload so far.
pub record System : Type 0 where
  pub writer : Writer
  pub waiting : List Op
  pub current : Option Op
  pub submitted : List Op
  pub shed : List Shed
  pub accepted : List Op
  pub applied : List Op
  pub calls : List (Call × Answer)
  pub largest : ℕ

abbrev pub body_size : Op → ℕ
body_size op = elim op.body [ none ↦ 0 | some p ↦ p.req_body + p.resp_body ]

abbrev pub and_waiting : Option Op → List Op → List Op
and_waiting none list = list
and_waiting (some op) list = op ∷ list

abbrev pub admitted : Op → ℕ → System → System
admitted op now s = record s {
  writer = (admit op now s.writer).0;
  waiting = and_waiting (admit op now s.writer).1 s.waiting;
  submitted = op ∷ s.submitted;
  shed = elim (admit op now s.writer).1 [
    | none ↦ record { op = op; pending = s.writer.payload_pending } ∷ s.shed
    | some o ↦ s.shed
  ];
  largest = if ltb s.largest (body_size op) then body_size op else s.largest;
}

abbrev pub sent : List Op → Op → List Op → Bool → System → System
sent xs op ys waited s = record s {
  writer = send waited op s.writer;
  waiting = xs ++ ys;
  accepted = s.accepted ++ op ∷ [];
}

abbrev pub taken : Op → List Op → System → System
taken op rest s = record s {
  writer = start_apply op (record s.writer { ops = rest });
  current = some op;
}

abbrev pub finished : Op → (ℕ → Answer) → ℕ → System → System
finished op answers now s = record s {
  writer = finish_apply op (write op answers).1 now s.writer;
  current = none;
  applied = s.applied ++ op ∷ [];
  calls = s.calls ++ (write op answers).0;
}

abbrev pub sampled : ℕ → System → System
sampled now s = record s { writer = (write_lag now s.writer).0 }

pub data Step : System → System → Type 0 where
  admits : (op : Op) (now : ℕ) (s : System) → op.payload_bytes ≡ 0 → Step s (admitted op now s)
  -- Any of the waiting requests may be the next.
  sends :
      (xs : List Op) (op : Op) (ys : List Op) (waited : Bool) (s : System)
      → s.waiting ≡ xs ++ op ∷ ys
      → length s.writer.ops < s.writer.capacity
      → Step s (sent xs op ys waited s)
  takes :
      (op : Op) (rest : List Op) (s : System)
      → s.writer.ops ≡ op ∷ rest
      → s.current ≡ none
      → Step s (taken op rest s)
  finishes :
      (op : Op) (answers : ℕ → Answer) (now : ℕ) (s : System)
      → s.current ≡ some op
      → Step s (finished op answers now s)
  samples : (now : ℕ) (s : System) → Step s (sampled now s)

pub data Reach (s : System) : System → Type 0 where
  here : Reach s s
  next : {t u : System} → Reach s t → Step t u → Reach s u

-- A new writer with a payload budget.
abbrev pub start : ℤ → ℤ → System
start queue budget = record {
  writer = set_payload_budget budget (new queue);
  waiting = [];
  current = none;
  submitted = [];
  shed = [];
  accepted = [];
  applied = [];
  calls = [];
  largest = 0;
}
