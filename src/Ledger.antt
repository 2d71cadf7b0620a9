-- ===== src/Ledger.antt =====
-- backend/internal/ledger/ledger.go: the queue of call records and its one writer goroutine. The
-- logger is left out; a reading of the clock is an argument.
pub mod Retries
pub mod Lag
pub mod System
pub mod Tests
use songguo.Prelude.{
  ℕ, zero, suc, ◌+◌, ◌-◌, Bool, true, false, ◌&&◌, not, Option, none, some, List, [], ◌∷◌, ◌++◌,
  String, ltb, leb, ◌==◌, if◌then◌else◌, length,
}
use songguo.Prelude.Int.{ℤ, leb_ℤ, pos, pos_part}

pub data Kind : Type 0 where
  create : Kind
  finalize : Kind
  upsert : Kind
  payload : Kind
  composition : Kind
  barrier : Kind

-- The lengths of the captured bodies, which is all that the queue reads of a payload.
pub record Payload : Type 0 where
  pub req_body : ℕ
  pub resp_body : ℕ

-- `Op`, with the id of its entry for the entry. `has_composition` tells whether `Composition` is
-- set; `After` is left to whoever reads the record of what was applied.
pub record Op : Type 0 where
  pub kind : Kind
  pub entry : String
  pub body : Option Payload
  pub call_id : String
  pub has_composition : Bool
  pub payload_bytes : ℕ
  pub submitted : ℕ

abbrev pub is_payload : Kind → Bool
is_payload payload = true
is_payload _ = false

-- `Writer`: the channel as the list of what it holds and its capacity, and the counters.
pub record Writer : Type 0 where
  pub ops : List Op
  pub capacity : ℕ
  pub high_water : ℕ
  pub written : ℕ
  pub failed : ℕ
  pub blocked : ℕ
  pub payload_budget : ℕ
  pub payload_pending : ℕ
  pub payloads_shed : ℕ
  pub lag_peak : ℕ
  pub applying : ℕ

-- `New`; a queue that is not positive takes `DefaultQueue`.
abbrev pub new : ℤ → Writer
new queue = record {
  ops = [];
  capacity = if leb_ℤ queue (pos 0) then 32768 else pos_part queue;
  high_water = 0;
  written = 0;
  failed = 0;
  blocked = 0;
  payload_budget = 0;
  payload_pending = 0;
  payloads_shed = 0;
  lag_peak = 0;
  applying = 0;
}

-- `SetPayloadBudget`
pub set_payload_budget : ℤ → Writer → Writer
set_payload_budget bytes w = record w { payload_budget = pos_part bytes }

-- `budget > 0 && pending > 0 && pending+size > budget`
abbrev pub is_over_budget : ℕ → Writer → Bool
is_over_budget size w =
    ltb 0 w.payload_budget
    && ltb 0 w.payload_pending
    && ltb w.payload_budget (w.payload_pending + size)

-- `admitPayload`, as one exchange of the pending bytes that has succeeded; `none` is a dropped one.
unfoldable pub admit_payload : Op → Payload → Writer → Writer × Option Op
admit_payload op p w =
    let size = p.req_body + p.resp_body in
    if is_over_budget size w then (record w { payloads_shed = w.payloads_shed + 1 }, none) else (
      record w { payload_pending = w.payload_pending + size },
      some (record op { payload_bytes = size }),
    )

-- `Submit`, up to the queue: what is dropped, and what goes on to the queue at an instant. An
-- operation comes with no bytes charged.
unfoldable pub admit : Op → ℕ → Writer → Writer × Option Op
unfolding admit_payload
admit op now w = elim op.body [
  | none ↦ (w, some (record op { submitted = now }))
  | some p ↦
      if not (is_payload op.kind)
      then (w, some (record op { submitted = now }))
      else let r = admit_payload op p w in
        (r.0, elim r.1 [ none ↦ none | some o ↦ some (record o { submitted = now }) ])
]

-- `observeDepth`
abbrev pub observe_depth : Writer → Writer
observe_depth w = record w {
  high_water = if ltb w.high_water (length w.ops) then length w.ops else w.high_water;
}

-- The channel takes an operation: at once, or after a wait, which `blocked` counts. It has room.
unfoldable pub send : Bool → Op → Writer → Writer
send waited op w =
    observe_depth
      (record w { ops = w.ops ++ op ∷ []; blocked = if waited then w.blocked + 1 else w.blocked })

-- What a call of the store answers: no error, one for which `IsBusy` holds, or another one.
pub data Answer : Type 0 where
  done : Answer
  busy : Answer
  broken : Answer

abbrev pub is_done : Answer → Bool
is_done done = true
is_done _ = false

-- A call of the store, with the call's id.
pub data Call : Type 0 where
  create_call : String → Call
  finalize_call : String → Call
  save_payload : String → Call
  save_composition : String → Call

-- `retryBusy` with a number of attempts left: the calls that were made with their answers, in order,
-- and the last answer. `answers` are the answers to the store's next calls.
pub retry_busy : ℕ → Call → (ℕ → Answer) → List (Call × Answer) × Answer
retry_busy zero call answers = ([], done)
retry_busy (suc left) call answers = elim (answers 0) [
  | done ↦ ((call, done) ∷ [], done)
  | broken ↦ ((call, broken) ∷ [], broken)
  | busy ↦ elim left [
    | zero ↦ ((call, busy) ∷ [], busy)
    | suc n ↦
        let rest = retry_busy left call (λ i. answers (suc i)) in ((call, busy) ∷ rest.0, rest.1)
  ]
]

abbrev pub busy_retry_attempts : ℕ
busy_retry_attempts = 4

-- The calls of `apply` that do not depend on one another.
abbrev pub single_call : Op → Option Call
single_call op = elim op.kind [
  | create ↦ some (create_call op.entry)
  | finalize ↦ some (finalize_call op.entry)
  | upsert ↦ none
  | payload ↦ elim op.body [ none ↦ none | some p ↦ some (save_payload op.call_id) ]
  | composition ↦ if op.has_composition then some (save_composition op.call_id) else none
  | barrier ↦ none
]

abbrev pub is_upsert : Kind → Bool
is_upsert upsert = true
is_upsert _ = false

-- The switch of `apply`: for an upsert the row is finalized only after it was created.
pub write : Op → (ℕ → Answer) → List (Call × Answer) × Answer
unfolding retry_busy
write op answers =
    if is_upsert op.kind
    then (let made = retry_busy busy_retry_attempts (create_call op.entry) answers in
        if is_done made.1
        then (let kept =
              retry_busy busy_retry_attempts (finalize_call op.entry)
                (λ i. answers (length made.0 + i)) in
            (made.0 ++ kept.0, kept.1))
        else made)
    else elim (single_call op) [
      | none ↦ ([], done)
      | some call ↦ retry_busy busy_retry_attempts call answers
    ]

-- `apply`, before the write.
abbrev pub start_apply : Op → Writer → Writer
start_apply op w = record w { applying = op.submitted }

-- `observeLag`
abbrev pub observe_lag : ℕ → ℕ → Writer → Writer
observe_lag submitted now w = record w {
  lag_peak = if leb (now - submitted) w.lag_peak then w.lag_peak else now - submitted;
}

-- `apply`, after the write: the counters, then the deferred functions, the last one first.
pub finish_apply : Op → Answer → ℕ → Writer → Writer
finish_apply op answer now w =
    let counted =
      if is_done answer
      then record w { written = w.written + 1 }
      else record w { failed = w.failed + 1 } in
    let idle =
      if op.submitted == 0
      then counted
      else observe_lag op.submitted now (record counted { applying = 0 }) in
    record idle { payload_pending = idle.payload_pending - op.payload_bytes }

-- `WriteLag`
unfoldable pub write_lag : ℕ → Writer → Writer × ℕ
write_lag now w =
    let lag = w.lag_peak in
    let current = now - w.applying in
    (record w { lag_peak = 0 }, if not (w.applying == 0) && ltb lag current then current else lag)
