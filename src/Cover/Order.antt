-- ===== src/Cover/Order.antt =====
-- backend/internal/store/messagecover.go: when one request holds another's conversation.
use songguo.Prelude.{◌≡◌, ◌⊎◌, true, arith, eq_iff, inl, inr, subst, sym}
use songguo.Prelude.Int.{leb_ℤ, eqb_ℤ}
use songguo.Cover.{Shape, is_known, extends}

-- A request of one agent, with a fingerprint, that starts where another does and reaches no further;
-- if it reaches as far, the two are the same throughout.
pub record IsPrefix (c e : Shape) : Type 0 where
  pub known : is_known c ≡ true
  pub agent : c.agent_id ≡ e.agent_id
  pub head : c.head ≡ e.head
  pub count : leb_ℤ c.count e.count ≡ true
  pub tail : eqb_ℤ c.count e.count ≡ true → c.tail ≡ e.tail

-- The conversation of the one is in that of the other.
abbrev pub IsHeld : Shape → Shape → Type 0
IsHeld c e = (c ≡ e) ⊎ IsPrefix c e

pub extends-IsPrefix : (c e : Shape) → extends c e ≡ true → c.agent_id ≡ e.agent_id → IsPrefix c e
unfolding extends
extends-IsPrefix c e h a = record {
  known = ground (arith, h);
  agent = a;
  head = ground (arith, h, eq_iff c.head e.head);
  count = ground (arith, h);
  tail = λ k. ground (arith, h, k, eq_iff c.tail e.tail);
}

IsPrefix-trans : (a b c : Shape) → IsPrefix a b → IsPrefix b c → IsPrefix a c
IsPrefix-trans a b c p q = record {
  known = p.known;
  agent = ground (arith, p.agent, q.agent);
  head = ground (arith, p.head, q.head);
  count = ground (arith, p.count, q.count);
  tail = λ k. ground (arith, k, p.count, q.count, p.tail, q.tail);
}

pub IsHeld-trans : (a b c : Shape) → IsHeld a b → IsHeld b c → IsHeld a c
IsHeld-trans a b c (inl e) k = subst (λ x. IsHeld x c) (sym e) k
IsHeld-trans a b c (inr p) (inl e) = inr (subst (IsPrefix a) e p)
IsHeld-trans a b c (inr p) (inr q) = inr (IsPrefix-trans a b c p q)
