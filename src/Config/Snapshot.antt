-- ===== src/Config/Snapshot.antt =====
-- backend/internal/config/config.go (`normalize`) and snapshot.go: the defaults, and the index from
-- models to vendors. A value of the model shares nothing, so `cloneVendor` is the identity.
pub mod Defaults
pub mod Index
pub mod Names
pub mod Tests
use Prim.Native.Nat.{Ordering}
use Prim.Native.String.{compare}
use songguo.Prelude.{
  ℕ, suc, ◌+◌, Bool, true, false, ◌&&◌, not, Option, none, some, List, [], ◌∷◌, ◌++◌, map, String,
  if◌then◌else◌, str_eq,
}
use songguo.Prelude.Int.{ℤ, pos, ltb_ℤ}
use songguo.Prelude.Map.{Map, lookup, insert, get_or}
use songguo.Prelude.Sort.{sort_by}
use songguo.Config.{Credential, ModelRoute, Price, Vendor}

abbrev pub adapter_openai : String
adapter_openai = "openai-compatible"

abbrev text_less : String → String → Bool
text_less s t = elim (compare s t) [ Ordering.lt ↦ true | _ ↦ false ]

abbrev keys {ℓ} : {V : Type ℓ} → Map V → List String
keys m = map (λ e. e.0) m

abbrev clamp : ℤ → ℤ
clamp n = if ltb_ℤ n (pos 0) then pos 0 else n

normalize_routes : Map ModelRoute → Map ModelRoute
normalize_routes [] = []
normalize_routes ((m, r) ∷ rs) = (m, record r { weight = clamp r.weight }) ∷ normalize_routes rs

normalize_wires : List String → Map String → List String
normalize_wires [] endpoints = sort_by text_less (keys endpoints)
normalize_wires (w ∷ ws) endpoints = w ∷ ws

-- The body of `normalize`'s loop.
pub normalize_vendor : Vendor → Vendor
unfolding normalize_routes normalize_wires
normalize_vendor v = record v {
  weight = clamp weight;
  model_routes = normalize_routes model_routes;
  max_concurrency = clamp max_concurrency;
  adapter = if str_eq adapter "" then adapter_openai else adapter;
  wires = normalize_wires wires endpoints;
  credential =
      if str_eq (v.credential).id "" then record (v.credential) { id = name } else v.credential;
}
  where
    open v use {weight, model_routes, max_concurrency, adapter, wires, endpoints, name}

unfoldable pub normalize : List Vendor → List Vendor
unfolding normalize_vendor
normalize = map normalize_vendor

pub record Snapshot : Type 0 where
  pub vendors : List Vendor
  pub by_name : Map ℕ
  pub by_model : Map (List Vendor)

-- The vendor as it serves one model, unless its route for the model is disabled.
pub routed : Vendor → String → Option Vendor
routed v m = elim (lookup m v.model_routes) [
  | none ↦ some v
  | some r ↦
      if r.enabled then some (record v { priority = r.priority; weight = r.weight }) else none
]

add_model : Vendor → Map (List Vendor) → String → Map (List Vendor)
unfolding routed
add_model v idx m = elim (routed v m) [
  | none ↦ idx
  | some w ↦ insert m (get_or m [] idx ++ w ∷ []) idx
]

index_models : Vendor → List String → Map (List Vendor) → Map (List Vendor)
unfolding add_model
index_models v [] idx = idx
index_models v (m ∷ ms) idx = index_models v ms (add_model v idx m)

index_vendors : ℕ → List Vendor → Map ℕ → Map (List Vendor) → Map ℕ × Map (List Vendor)
unfolding index_models
index_vendors i [] names models = (names, models)
index_vendors i (v ∷ vs) names models =
    index_vendors (i + 1) vs (insert v.name i names) (index_models v v.served_models models)

-- `newSnapshot`
pub new_snapshot : List Vendor → Snapshot
unfolding index_vendors
new_snapshot vs =
    let (names, models) = index_vendors 0 vs [] [] in
    record { vendors = vs; by_name = names; by_model = models }

-- `VendorsForModel`
unfoldable pub vendors_for_model : Snapshot → String → List Vendor
vendors_for_model s m = get_or m [] s.by_model

nth : ℕ → List Vendor → Option Vendor
nth i [] = none
nth ℕ.zero (v ∷ vs) = some v
nth (suc i) (v ∷ vs) = nth i vs

-- `Vendor`: an index from `by_name` is never out of range.
pub vendor : Snapshot → String → Option Vendor
unfolding nth
vendor s name = elim (lookup name s.by_name) [ none ↦ none | some i ↦ nth i s.vendors ]

-- `PriceFor`
pub price_for : Snapshot → String → String → Option Price
unfolding vendor
price_for s name m = elim (vendor s name) [ none ↦ none | some v ↦ lookup m v.prices ]
