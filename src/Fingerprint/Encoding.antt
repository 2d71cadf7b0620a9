-- ===== src/Fingerprint/Encoding.antt =====
-- backend/internal/parse/fingerprint.go: that two requests are never encoded alike.
use songguo.Prelude.{
  ℕ, suc, ◌^◌, ◌<◌, ◌≡◌, ◌∙◌, refl, sym, ap, List, [], ◌∷◌, ◌++◌, arith, length, All, take,
}
use songguo.Prelude.Member.{append_assoc}
use songguo.Fingerprint.{
  ToolCall, Message, put_uint64, write_field, write_calls, write_message, write_messages,
  fingerprint,
}

abbrev pub IsShort : List ℕ → Type 0
IsShort s = length s < 2 ^ 64

put_uint64-inj :
    (n m : ℕ) (xs ys : List ℕ)
    → n < 2 ^ 64
    → m < 2 ^ 64
    → put_uint64 n ++ xs ≡ put_uint64 m ++ ys
    → (n ≡ m) × (xs ≡ ys)
unfolding put_uint64
put_uint64-inj n m xs ys a b e = ground (arith, a, b, e)

unequal : {n : ℕ} → 0 ≡ suc n → ⊥
unequal e = omega (arith, e)

-- Texts of one length in front of others.
append-inj : (s t xs ys : List ℕ) → length s ≡ length t → s ++ xs ≡ t ++ ys → (s ≡ t) × (xs ≡ ys)
append-inj [] [] xs ys l e = (refl, e)
append-inj [] (b ∷ t) xs ys l e = elim (unequal l) [ ]
append-inj (a ∷ s) [] xs ys l e = elim (unequal (sym l)) [ ]
append-inj (a ∷ s) (b ∷ t) xs ys l e =
    let k = append-inj s t xs ys (omega (arith, l)) (cc e) in (cc (e, k.0), k.1)

-- A number, and a field, in front of the rest of an encoding.
put-inj :
    (n m : ℕ) (us vs xs ys : List ℕ)
    → n < 2 ^ 64
    → m < 2 ^ 64
    → (put_uint64 n ++ us) ++ xs ≡ (put_uint64 m ++ vs) ++ ys
    → (n ≡ m) × (us ++ xs ≡ vs ++ ys)
put-inj n m us vs xs ys a b e =
    put_uint64-inj n m (us ++ xs) (vs ++ ys) a b
      (sym (append_assoc (put_uint64 n) us xs) ∙ e ∙ append_assoc (put_uint64 m) vs ys)

write_field-inj :
    (s t us vs xs ys : List ℕ)
    → IsShort s
    → IsShort t
    → (write_field s ++ us) ++ xs ≡ (write_field t ++ vs) ++ ys
    → (s ≡ t) × (us ++ xs ≡ vs ++ ys)
unfolding write_field
write_field-inj s t us vs xs ys a b e =
    let k =
      put-inj (length s) (length t) s t (us ++ xs) (vs ++ ys) a b
        (sym (append_assoc (write_field s) us xs) ∙ e ∙ append_assoc (write_field t) vs ys) in
    append-inj s t (us ++ xs) (vs ++ ys) k.0 k.1

-- Calls whose texts, and messages whose texts and number of calls, a Go program can hold.
pub record IsShortCall (c : ToolCall) : Type 0 where
  pub id : IsShort c.id
  pub name : IsShort c.name
  pub arguments : IsShort c.arguments

call_path : (c d : ToolCall) → c.id ≡ d.id → c.name ≡ d.name → c.arguments ≡ d.arguments → c ≡ d
call_path c d p q r = λ j. record { id = p j; name = q j; arguments = r j }

write_calls-inj :
    (cs ds : List ToolCall) (xs ys : List ℕ)
    → All IsShortCall cs
    → All IsShortCall ds
    → length cs ≡ length ds
    → write_calls cs ++ xs ≡ write_calls ds ++ ys
    → (cs ≡ ds) × (xs ≡ ys)
unfolding write_calls
write_calls-inj [] [] xs ys a b l e = (refl, e)
write_calls-inj [] (d ∷ ds) xs ys a b l e = elim (unequal l) [ ]
write_calls-inj (c ∷ cs) [] xs ys a b l e = elim (unequal (sym l)) [ ]
write_calls-inj (c ∷ cs) (d ∷ ds) xs ys a b l e =
    let i = write_field-inj c.id d.id _ _ xs ys a.0.id b.0.id e in
    let n = write_field-inj c.name d.name _ _ xs ys a.0.name b.0.name i.1 in
    let g = write_field-inj c.arguments d.arguments _ _ xs ys a.0.arguments b.0.arguments n.1 in
    let k = write_calls-inj cs ds xs ys a.1 b.1 (omega (arith, l)) g.1 in
    (cc (call_path c d i.0 n.0 g.0, k.0), k.1)

pub record IsShortMessage (m : Message) : Type 0 where
  pub role : IsShort m.role
  pub text : IsShort m.text
  pub tool_call_id : IsShort m.tool_call_id
  pub name : IsShort m.name
  pub count : length m.tool_calls < 2 ^ 64
  pub tool_calls : All IsShortCall m.tool_calls

write_message-inj :
    (m n : Message) (xs ys : List ℕ)
    → IsShortMessage m
    → IsShortMessage n
    → write_message m ++ xs ≡ write_message n ++ ys
    → (m ≡ n) × (xs ≡ ys)
unfolding write_message
write_message-inj m n xs ys a b e =
    let r = write_field-inj m.role n.role _ _ xs ys a.role b.role e in
    let t = write_field-inj m.text n.text _ _ xs ys a.text b.text r.1 in
    let i =
      write_field-inj m.tool_call_id n.tool_call_id _ _ xs ys a.tool_call_id b.tool_call_id t.1 in
    let o = write_field-inj m.name n.name _ _ xs ys a.name b.name i.1 in
    let l = put-inj (length m.tool_calls) (length n.tool_calls) _ _ xs ys a.count b.count o.1 in
    let k = write_calls-inj m.tool_calls n.tool_calls xs ys a.tool_calls b.tool_calls l.0 l.1 in
    (
      λ j. record {
        role = r.0 j;
        text = t.0 j;
        tool_call_id = i.0 j;
        name = o.0 j;
        tool_calls = k.0 j;
      },
      k.1,
    )

write_message-nonempty : (m : Message) (xs : List ℕ) → [] ≡ write_message m ++ xs → ⊥
unfolding write_message write_field put_uint64
write_message-nonempty m xs e = cc e

-- Requests whose messages fit in memory are told apart by what is hashed of them: two lists of messages
-- with the same encoding are the same, wherever one text ends and the next begins.
pub write_messages-inj :
    (ms ns : List Message)
    → All IsShortMessage ms
    → All IsShortMessage ns
    → write_messages ms ≡ write_messages ns
    → ms ≡ ns
unfolding write_messages
write_messages-inj [] [] a b e = refl
write_messages-inj [] (n ∷ ns) a b e = elim (write_message-nonempty n (write_messages ns) e) [ ]
write_messages-inj (m ∷ ms) [] a b e =
    elim (write_message-nonempty m (write_messages ms) (sym e)) [ ]
write_messages-inj (m ∷ ms) (n ∷ ns) a b e =
    let k = write_message-inj m n (write_messages ms) (write_messages ns) a.0 b.0 e in
    let rest = write_messages-inj ms ns a.1 b.1 k.1 in cc (k.0, rest)

-- Requests with one fingerprint are the same, where the truncated hash does not take their two
-- different encodings to one tail.
pub fingerprint-inj :
    (sum : List ℕ → List ℕ) (ms ns : List Message)
    → All IsShortMessage ms
    → All IsShortMessage ns
    → (take 16 (sum (write_messages ms)) ≡ take 16 (sum (write_messages ns))
        → write_messages ms ≡ write_messages ns)
    → fingerprint sum ms ≡ fingerprint sum ns
    → ms ≡ ns
unfolding fingerprint
fingerprint-inj sum [] [] a b h e = refl
fingerprint-inj sum [] (n ∷ ns) a b h e = elim (unequal (ap (λ f. f.count) e)) [ ]
fingerprint-inj sum (m ∷ ms) [] a b h e = elim (unequal (ap (λ f. f.count) (sym e))) [ ]
fingerprint-inj sum (m ∷ ms) (n ∷ ns) a b h e =
    write_messages-inj (m ∷ ms) (n ∷ ns) a b (h (ap (λ f. f.tail) e))
