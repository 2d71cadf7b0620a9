-- ===== src/Manager/Table.antt =====
-- backend/internal/configsvc/manager.go: the prices and routes of a provider's models.
pub mod Kept
use Prim.Native.String.{◌++◌ as str_append}
use songguo.Prelude.{true, Option, none, some, List, [], ◌∷◌, String, if◌then◌else◌, str_eq}
use songguo.Prelude.Int.{ℤ}
use songguo.Prelude.Map.{Map, lookup, insert}
use songguo.Config.{Price, ModelRoute}
use songguo.Manager.{ProviderModel, Provider}
use songguo.Manager.Prices.{
  Texts, Listed, Best, costs_nothing, fallback_price, model_price, any_model_price,
}

-- `priceSources`
pub record PriceSources : Type 0 where
  pub feed : Listed
  pub catalog : Listed
  pub pinned : Listed

abbrev pub or_else {ℓ} : {A : Type ℓ} → Option A → Option A → Option A
or_else none later = later
or_else (some a) later = some a

-- A published rate, from the sources in order.
unfoldable pub published : Texts → String → String → PriceSources → Option Price
unfolding model_price any_model_price
published t catalog_id model src = or_else (model_price t "catalog" src.pinned catalog_id model) (
    or_else (model_price t "feed" src.feed catalog_id model) (
      or_else (model_price t "catalog" src.catalog catalog_id model) (
        or_else (any_model_price t "feed" src.feed model)
          (any_model_price t "catalog" src.catalog model))))

-- The rate of the row itself.
abbrev pub stored_price : ProviderModel → Price
stored_price m = record {
  cost = m.cost;
  source =
      if m.price_override
      then "override"
      else if costs_nothing m.cost
      then "unpriced"
      else "stored";
}

abbrev pub price_or : Price → Option Price → Price
price_or stored none = stored
price_or stored (some p) = p

-- `effectivePrice`
unfoldable pub effective_price : Texts → String → ProviderModel → PriceSources → Price
unfolding published
effective_price t catalog_id m src =
    if m.price_override
    then stored_price m
    else price_or (stored_price m) (published t catalog_id m.model src)

abbrev pub value_or : ℤ → Option ℤ → ℤ
value_or d none = d
value_or d (some n) = n

-- Pass 1: `priceTable` and `modelRoutes`.
unfoldable pub price_table :
    Texts → PriceSources → String → List ProviderModel → Map Price → Map Price
unfolding effective_price
price_table t src catalog_id [] table = table
price_table t src catalog_id (m ∷ ms) table =
    price_table t src catalog_id ms (insert m.model (effective_price t catalog_id m src) table)

abbrev pub route_of : Provider → ProviderModel → ModelRoute
route_of pvd m = record {
  enabled = if m.routing_configured then m.routing_enabled else true;
  priority = value_or pvd.priority m.priority_override;
  weight = value_or pvd.weight m.weight_override;
}

unfoldable pub model_routes : Provider → List ProviderModel → Map ModelRoute → Map ModelRoute
model_routes pvd [] routes = routes
model_routes pvd (m ∷ ms) routes = model_routes pvd ms (insert m.model (route_of pvd m) routes)

-- Pass 2: a model without a published rate is lent one.
abbrev pub lent : Map Price → String → Best → Map Price
lent table model none = table
lent table model (some (from, p)) =
    insert model (record { cost = p.cost; source = str_append "fallback:" from }) table

abbrev pub lend_to : ℤ → Map Price → String → Option Price → Map Price
lend_to max_sane table model none = table
lend_to max_sane table model (some p) =
    if str_eq p.source "unpriced"
    then lent table model (fallback_price max_sane table model)
    else table

unfoldable pub lend_all : ℤ → Map Price → List ProviderModel → Map Price
unfolding fallback_price
lend_all max_sane table [] = table
lend_all max_sane table (m ∷ ms) =
    lend_all max_sane (lend_to max_sane table m.model (lookup m.model table)) ms

-- Both passes.
unfoldable pub prices_of : Texts → PriceSources → ℤ → Provider → Map Price
unfolding price_table lend_all
prices_of t src max_sane pvd =
    lend_all max_sane (price_table t src pvd.catalog_id pvd.models []) pvd.models
