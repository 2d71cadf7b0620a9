-- ===== src/Ledger/Retries.antt =====
-- backend/internal/ledger/ledger.go: which calls of the store one operation makes.
use songguo.Prelude.{
  ℕ, zero, suc, ◌+◌, ◌-◌, ◌≤◌, ◌≡◌, ◌⊎◌, ap, refl, true, false, none, some, List, [], ◌∷◌, ◌++◌,
  arith, Bool-cases, Option-cases, inl, inr, length,
}
use songguo.Ledger.{
  Op, Answer, done, busy, broken, is_done, Call, create_call, finalize_call, retry_busy, write,
  single_call, is_upsert, busy_retry_attempts,
}

-- One call is made up to `left` times: again after each busy answer and after no other, and it ends
-- with the answer `a`, which is a busy one only if all attempts were made.
abbrev pub Retries : Call → ℕ → List (Call × Answer) → Answer → Type 0
Retries c left [] a = ⊥
Retries c left ((call, x) ∷ []) a = (call ≡ c) × (x ≡ a) × (1 ≤ left) × (a ≡ busy → left ≡ 1)
Retries c left ((call, x) ∷ y ∷ rest) a =
    (call ≡ c) × (x ≡ busy) × (2 ≤ left) × Retries c (left - 1) (y ∷ rest) a

Retries-again :
    (c : Call) (left : ℕ) (rest : List (Call × Answer)) (a : Answer)
    → Retries c (suc left) rest a
    → Retries c (suc (suc left)) ((c, busy) ∷ rest) a
Retries-again c left [] a h = absurd h
Retries-again c left (y ∷ rest) a h =
    let less : suc (suc left) - 1 ≡ suc left = omega arith in (refl, refl, omega arith, rw less h)

Answer-cases : (a : Answer) → (a ≡ done) ⊎ (a ≡ busy) ⊎ (a ≡ broken)
Answer-cases done = inl refl
Answer-cases busy = inr (inl refl)
Answer-cases broken = inr (inr refl)

retry_busy-Retries :
    (left : ℕ) (c : Call) (answers : ℕ → Answer)
    → Retries c (suc left) (retry_busy (suc left) c answers).0 (retry_busy (suc left) c answers).1
unfolding retry_busy
retry_busy-Retries zero c answers = elim (Answer-cases (answers 0)) [
  | inl e ↦ rw (e, retry_busy) (refl, refl, omega arith, λ h. refl)
  | inr (inr e) ↦ rw (e, retry_busy) (refl, refl, omega arith, λ h. refl)
  | inr (inl e) ↦ rw (e, retry_busy) (refl, refl, omega arith, λ h. refl)
]
retry_busy-Retries (suc n) c answers =
    let again = retry_busy-Retries n c (λ i. answers (suc i)) in
    elim (Answer-cases (answers 0)) [
      | inl e ↦ rw (e, retry_busy) (refl, refl, omega arith, λ h. cc)
      | inr (inr e) ↦ rw (e, retry_busy) (refl, refl, omega arith, λ h. cc)
      | inr (inl e) ↦ rw (e, retry_busy) (Retries-again c n _ _ again)
    ]

-- What one operation makes of the store: nothing, one call, the creation of a row that failed, or
-- the creation and then the finalization of a row.
pub data Written (op : Op) (calls : List (Call × Answer)) (a : Answer) : Type 0 where
  nothing :
      calls ≡ [] → a ≡ done → single_call op ≡ none → is_upsert op.kind ≡ false → Written op calls a
  once :
      (c : Call)
      → single_call op ≡ some c
      → Retries c busy_retry_attempts calls a
      → Written op calls a
  refused :
      is_upsert op.kind ≡ true
      → Retries (create_call op.entry) busy_retry_attempts calls a
      → is_done a ≡ false
      → Written op calls a
  kept :
      (made rest : List (Call × Answer))
      → is_upsert op.kind ≡ true
      → calls ≡ made ++ rest
      → Retries (create_call op.entry) busy_retry_attempts made done
      → Retries (finalize_call op.entry) busy_retry_attempts rest a
      → Written op calls a

is_done_eq : (a : Answer) → is_done a ≡ true → a ≡ done
is_done_eq done h = refl
is_done_eq busy h = cc
is_done_eq broken h = cc

upsert-Written :
    (op : Op) (answers : ℕ → Answer)
    → is_upsert op.kind ≡ true
    → Written op (write op answers).0 (write op answers).1
unfolding write
upsert-Written op answers u =
    let made = retry_busy busy_retry_attempts (create_call op.entry) answers in
    let tried = retry_busy-Retries 3 (create_call op.entry) answers in
    elim (Bool-cases (is_done made.1)) [
      | inr n ↦ rw (u, write, n) (refused u tried n)
      | inl d ↦
          let later = λ (i : ℕ). answers (length made.0 + i) in
          rw (u, write, d)
            (kept made.0 (retry_busy busy_retry_attempts (finalize_call op.entry) later).0 u refl
              (rw (is_done_eq made.1 d) at tried)
              (retry_busy-Retries 3 (finalize_call op.entry) later))
    ]

write-none :
    (op : Op) (answers : ℕ → Answer)
    → is_upsert op.kind ≡ false
    → single_call op ≡ none
    → write op answers ≡ ([], done)
unfolding write
write-none op answers n e = rw (n, write) (rw e)

write-some :
    (op : Op) (answers : ℕ → Answer) (c : Call)
    → is_upsert op.kind ≡ false
    → single_call op ≡ some c
    → write op answers ≡ retry_busy busy_retry_attempts c answers
unfolding write
write-some op answers c n e = rw (n, write) (rw e)

-- Every call is made at most four times, again only after a busy answer, and fails with a busy one
-- only after four; an operation makes the one call of its kind, or none where it has nothing to
-- write; and an upsert finalizes its row only after the row was created, and creates it only once.
pub write-Written :
    (op : Op) (answers : ℕ → Answer) → Written op (write op answers).0 (write op answers).1
write-Written op answers = elim (Bool-cases (is_upsert op.kind)) [
  | inl u ↦ upsert-Written op answers u
  | inr n ↦ elim (Option-cases (single_call op)) [
    | inl e ↦
        nothing (ap (λ r. r.0) (write-none op answers n e))
          (ap (λ r. r.1) (write-none op answers n e)) e n
    | inr (c, e) ↦ once c e (rw (write-some op answers c n e) (retry_busy-Retries 3 c answers))
  ]
]
