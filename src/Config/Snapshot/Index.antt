-- ===== src/Config/Snapshot/Index.antt =====
-- backend/internal/config/snapshot.go: the two indexes against plain searches of the vendor list.
use songguo.Prelude.{
  ℕ, ◌+◌, ◌≡◌, none, some, List, [], ◌∷◌, ◌++◌, String, arith, inl, inr, subst, if◌then◌else◌,
  str_eq, eq_iff, Option-cases, Bool-cases, sym, ap, ◌∙◌,
}
use mathlib.Core.List.{append-nil, append_assoc}
use songguo.Prelude.Map.{Map, lookup, insert, get_or, get_or-insert}
use songguo.Config.{Vendor}
use songguo.Config.Snapshot.{
  routed, add_model, index_models, index_vendors, new_snapshot, vendors_for_model,
}

-- The vendor as it serves the model, if it is this model that it declares and its route allows it.
pub offer : Vendor → String → String → List Vendor
offer v m x = if str_eq x m then elim (routed v m) [ none ↦ [] | some w ↦ w ∷ [] ] else []

pub offers : Vendor → String → List String → List Vendor
unfolding offer
offers v m [] = []
offers v m (x ∷ xs) = offer v m x ++ offers v m xs

-- What a search of the declared vendors for a model finds.
pub serving : List Vendor → String → List Vendor
serving [] m = []
serving (v ∷ vs) m = offers v m v.served_models ++ serving vs m

get_or-add_model_self :
    (v : Vendor) (idx : Map (List Vendor)) (m : String)
    → get_or m [] (add_model v idx m) ≡ get_or m [] idx ++ offer v m m
unfolding add_model offer
get_or-add_model_self v idx m = elim (Option-cases (routed v m)) [
  | inl e ↦ ground (arith, eq_iff m m, append-nil (get_or m [] idx))
  | inr (w, e) ↦ ground (arith, eq_iff m m, get_or-insert m m (get_or m [] idx ++ w ∷ []) [] idx)
]

get_or-add_model :
    (v : Vendor) (idx : Map (List Vendor)) (x m : String)
    → get_or m [] (add_model v idx x) ≡ get_or m [] idx ++ offer v m x
unfolding add_model offer
get_or-add_model v idx x m = elim (Bool-cases (str_eq x m)) [
  | inl e ↦
      subst (λ y. get_or m [] (add_model v idx y) ≡ get_or m [] idx ++ offer v m y)
        (sym ((eq_iff x m).0 e)) (get_or-add_model_self v idx m)
  | inr e ↦ elim (Option-cases (routed v x)) [
    | inl o ↦ ground (arith, append-nil (get_or m [] idx))
    | inr (w, o) ↦
        ground (
          arith,
          append-nil (get_or m [] idx),
          get_or-insert x m (get_or x [] idx ++ w ∷ []) [] idx,
        )
  ]
]

get_or-index_models :
    (v : Vendor) (ms : List String) (idx : Map (List Vendor)) (m : String)
    → get_or m [] (index_models v ms idx) ≡ get_or m [] idx ++ offers v m ms
unfolding index_models offers
get_or-index_models v [] idx m = sym (append-nil (get_or m [] idx))
get_or-index_models v (x ∷ xs) idx m =
    get_or-index_models v xs (add_model v idx x) m
    ∙ ap (λ l. l ++ offers v m xs) (get_or-add_model v idx x m)
    ∙ append_assoc (get_or m [] idx) (offer v m x) (offers v m xs)

get_or-index_vendors :
    (i : ℕ) (vs : List Vendor) (names : Map ℕ) (models : Map (List Vendor)) (m : String)
    → get_or m [] (index_vendors i vs names models).1 ≡ get_or m [] models ++ serving vs m
unfolding index_vendors serving
get_or-index_vendors i [] names models m = sym (append-nil (get_or m [] models))
get_or-index_vendors i (v ∷ vs) names models m =
    get_or-index_vendors (i + 1) vs (insert v.name i names) (index_models v v.served_models models)
      m
    ∙ ap (λ l. l ++ serving vs m) (get_or-index_models v v.served_models models m)
    ∙ append_assoc (get_or m [] models) (offers v m v.served_models) (serving vs m)

-- The index answers what a search of the declared vendors answers: for each model, the vendors
-- that serve it and whose route for it is not disabled, in the order in which they were declared,
-- with the priority and the weight of that route where there is one.
pub vendors_for_model-serving :
    (vs : List Vendor) (m : String) → vendors_for_model (new_snapshot vs) m ≡ serving vs m
unfolding new_snapshot vendors_for_model get_or lookup
vendors_for_model-serving vs m = get_or-index_vendors 0 vs [] [] m
