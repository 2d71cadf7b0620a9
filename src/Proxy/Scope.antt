-- ===== src/Proxy/Scope.antt =====
-- backend/internal/proxy/proxy.go: which targets `resolve` leaves to a user with a scope.
use songguo.Prelude.{
  ◌≡◌, refl, Bool, true, false, ◌&&◌, not, Option, List, [], ◌∷◌, String, arith, str_eq, Bool-cases,
  Option-cases, inl, inr, ◌⊎◌,
}
use songguo.Prelude.Map.{Map}
use songguo.Router.Select.{Target}
use songguo.Proxy.{User, Request}
use songguo.Proxy.Resolve.{
  Wire, Plan, Matched, refused, planned, resolve, plan_kept, plan_scoped, scoped, resolve_wires,
  model_refused, selector, contains, is_empty, filter_scoped,
}
use songguo.Proxy.Serve.{World}

-- A provider that the scope of a user lets the request reach: the model that the request names is
-- in the scope, or, if it names none, the provider is. An empty scope has everything.
pub record InScope (u : User) (r : Request) (vendor : String) : Type 0 where
  pub model : model_refused u r ≡ false
  pub by_name : str_eq r.model "" && not (is_empty u.scope) ≡ true → contains u.scope vendor ≡ true

-- What holds of the target, if the plan has one.
abbrev pub OnTarget : (Target → Type 0) → Plan → Type 0
OnTarget Q (refused es) = Unit
OnTarget Q (planned t wire) = Q t

filter_scoped-head :
    (scope : List String) (ts : List Target) (t : Target) (rest : List Target)
    → filter_scoped scope ts ≡ t ∷ rest
    → contains scope t.vendor.name ≡ true
unfolding filter_scoped
filter_scoped-head scope [] t rest e = cc e
filter_scoped-head scope (x ∷ ts) t rest e = elim (Bool-cases (contains scope x.vendor.name)) [
  | inl y ↦ ground (arith, y, e)
  | inr n ↦ filter_scoped-head scope ts t rest (ground (arith, n, e))
]

scoped-head :
    (u : User) (r : Request) (kept : List Target) (t : Target) (rest : List Target)
    → model_refused u r ≡ false
    → scoped u r kept ≡ t ∷ rest
    → InScope u r t.vendor.name
scoped-head u r kept t rest m e = record {
  model = m;
  by_name = λ h. filter_scoped-head u.scope kept t rest (ground (arith, h, e));
}

module _ (w : World) (capture : Bool) (u : User) (r : Request) (m : model_refused u r ≡ false) where
  abbrev Reachable : Target → Type 0
  Reachable t = InScope u r t.vendor.name

  plan_scoped-Reachable :
      (wires : Map (Option Wire)) (kept : List Target)
      → OnTarget Reachable (plan_scoped capture u r wires (scoped u r kept))
  unfolding plan_scoped
  plan_scoped-Reachable wires kept = elim (cases (scoped u r kept)) [
    | inl e ↦ rw e tt
    | inr (t, rest, e) ↦ rw e (scoped-head u r kept t rest m e)
  ]
    where
      cases :
          (ts : List Target) → (ts ≡ []) ⊎ ((t : Target) × (rest : List Target) × (ts ≡ t ∷ rest))
      cases [] = inl refl
      cases (t ∷ ts) = inr (t, ts, refl)

  plan_kept-Reachable :
      (d : Matched) (kept : List Target) → OnTarget Reachable (plan_kept capture u r d kept)
  unfolding plan_kept
  plan_kept-Reachable d [] = tt
  plan_kept-Reachable d (t ∷ ts) = plan_scoped-Reachable d.wires (t ∷ ts)

pub resolve-InScope :
    (w : World) (capture : Bool) (u : User) (r : Request)
    → OnTarget (λ t. InScope u r t.vendor.name) (resolve w.select w.match capture u r)
unfolding resolve
resolve-InScope w capture u r = elim (Bool-cases (model_refused u r)) [
  | inl e ↦ rw (e, resolve) tt
  | inr n ↦ elim (Option-cases (w.select (selector r))) [
    | inl e ↦ rw (n, resolve) (rw e tt)
    | inr (targets, e) ↦
        let d = resolve_wires w.match targets in
        rw (n, resolve) (rw e (plan_kept-Reachable w capture u r n d d.kept))
  ]
]
