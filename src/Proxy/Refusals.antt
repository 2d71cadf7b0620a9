-- ===== src/Proxy/Refusals.antt =====
-- backend/internal/proxy/proxy.go: the refusals of `resolve`.
use songguo.Prelude.{Bool, Option, List, [], ◌∷◌, String, ℕ, Bool-cases, Option-cases, inl, inr}
use songguo.Prelude.Map.{Map}
use songguo.Router.Select.{Target, Selector}
use songguo.Proxy.{User, Row, Effect, Request, deny}
use songguo.Proxy.Resolve.{
  Wire, Plan, Matched, refused, planned, resolve, plan_kept, plan_scoped, scoped, resolve_wires,
  deny_row, unmatched_row, model_refused, selector,
}

-- The row, the status and the reason of each refusal.
pub data Refusal (u : User) (r : Request) : Row → ℕ → String → Type 0 where
  by_model : Refusal u r (deny_row u r "") 403 "model_not_allowed"
  by_route : Refusal u r (deny_row u r "") 502 "no_upstream"
  by_wire : (names : List String) → Refusal u r (unmatched_row u r names) 404 "wire_unmatched"
  by_vendor : Refusal u r (deny_row u r "") 403 "vendor_not_allowed"

-- What holds of the refusal, if the plan is one.
abbrev pub OnRefusal {ℓ} : (List Effect → Type ℓ) → Plan → Type ℓ
OnRefusal P (refused es) = P es
OnRefusal P (planned t wire) = Unit

module _ (P : List Effect → Type 0) (capture : Bool) (u : User) (r : Request)
    (holds : (row : Row) (status : ℕ) (reason : String)
      → Refusal u r row status reason
      → P (deny capture row status reason)) where
  plan_scoped-OnRefusal :
      (wires : Map (Option Wire)) (ts : List Target)
      → OnRefusal P (plan_scoped capture u r wires ts)
  unfolding plan_scoped
  plan_scoped-OnRefusal wires [] = holds _ _ _ by_vendor
  plan_scoped-OnRefusal wires (t ∷ ts) = tt

  plan_kept-OnRefusal : (m : Matched) (ts : List Target) → OnRefusal P (plan_kept capture u r m ts)
  unfolding plan_kept
  plan_kept-OnRefusal m [] = holds _ _ _ (by_wire m.denied)
  plan_kept-OnRefusal m (t ∷ ts) = plan_scoped-OnRefusal m.wires (scoped u r (t ∷ ts))

  pub resolve-OnRefusal :
      (select : Selector → Option (List Target)) (match : List String → Option Wire)
      → OnRefusal P (resolve select match capture u r)
  unfolding resolve
  resolve-OnRefusal select match = elim (Bool-cases (model_refused u r)) [
    | inl e ↦ rw (e, resolve) (holds _ _ _ by_model)
    | inr n ↦ elim (Option-cases (select (selector r))) [
      | inl e ↦ rw (n, resolve) (rw e (holds _ _ _ by_route))
      | inr (targets, e) ↦
          rw (n, resolve)
            (rw e (
              plan_kept-OnRefusal (resolve_wires match targets) (resolve_wires match targets).kept))
    ]
  ]
