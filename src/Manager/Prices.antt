-- ===== src/Manager/Prices.antt =====
-- backend/internal/configsvc/manager.go: the rate of a model, with what config.go and catalog.go say of
-- a rate. A feed and a catalogue are read as the costs that they list by provider and model.
pub mod Lender
pub mod Makers
use text.Mathlib.Text.{starts_with}
use songguo.Prelude.{
  ℕ, Bool, true, false, ◌&&◌, ◌||◌, not, Option, none, some, List, [], ◌∷◌, map, String,
  if◌then◌else◌, str_eq, is_before,
}
use songguo.Prelude.Int.{ℤ, pos, ltb_ℤ, eqb_ℤ}
use songguo.Prelude.Map.{Map, lookup, insert}
use songguo.Prelude.Sort.{sort_by}
use songguo.Catalog.{Cost, CostSchedule}
use songguo.Config.{Price}

-- Letter case and the regular expressions of the catalogue.
pub record Texts : Type 0 where
  pub lower : String → String
  pub dash_version : String → String
  pub drop_date : String → String

-- `CanonicalID` and `LookupIDs`
abbrev pub canonical_id : Texts → String → String
canonical_id t id = t.dash_version (t.dash_version (t.lower id))

abbrev pub lookup_ids : Texts → String → List String
lookup_ids t id =
    let canon = canonical_id t id in
    let undated = t.drop_date canon in canon ∷ (if str_eq undated canon then [] else undated ∷ [])

abbrev is_nil {ℓ} : {A : Type ℓ} → List A → Bool
is_nil [] = true
is_nil (x ∷ xs) = false

abbrev is_zero : ℤ → Bool
is_zero n = eqb_ℤ n (pos 0)

-- `Cost.Zero` and `Cost.Tokens`
abbrev pub costs_nothing : Cost → Bool
costs_nothing c =
    is_zero c.input
    && is_zero c.output
    && is_zero c.cache_read
    && is_zero c.cache_write
    && is_zero c.character
    && is_zero c.second
    && is_zero c.image
    && is_zero c.call
    && is_nil c.tiers
    && is_nil c.schedules

abbrev pub prices_tokens : Cost → Bool
prices_tokens c =
    not (is_zero c.input)
    || not (is_zero c.output)
    || not (is_zero c.cache_read)
    || not (is_zero c.cache_write)

abbrev greater : ℤ → ℤ → ℤ
greater a b = if ltb_ℤ a b then b else a

-- The schedules' part of `PriceRank`.
unfoldable pub peak : ℤ → List CostSchedule → ℤ
peak rank [] = rank
peak rank (s ∷ ss) = peak (greater (greater rank s.input) s.output) ss

-- `PriceRank`
unfoldable pub price_rank : Price → ℤ
unfolding peak
price_rank p =
    let c = p.cost in
    if prices_tokens c
    then peak (greater c.input c.output) c.schedules
    else greater (greater (greater c.character c.second) c.image) c.call

-- `IsFallbackPrice`
abbrev pub is_fallback_price : Price → Bool
is_fallback_price p = starts_with p.source "fallback:"

-- `PriceRateImplausible`, with the bound in the unit of the rates.
unfoldable pub rate_implausible : ℤ → Price → Bool
unfolding price_rank
rate_implausible max_sane p = prices_tokens p.cost && ltb_ℤ max_sane (price_rank p)

-- A price of the provider that may be lent to a model.
unfoldable pub may_lend : ℤ → String → String × Price → Bool
unfolding rate_implausible
may_lend max_sane for_model (model, p) =
    not (str_eq model for_model)
    && prices_tokens p.cost
    && not (costs_nothing p.cost)
    && not (is_fallback_price p)
    && not (rate_implausible max_sane p)

-- `best` and `bestModel`; at first there is none.
abbrev pub Best : Type 0
Best = Option (String × Price)

abbrev pub lends_more : Best → String × Price → Bool
lends_more none (model, p) = true
lends_more (some (best_model, best)) (model, p) =
    str_eq best_model ""
    || (ltb_ℤ (price_rank best) (price_rank p)
        || (eqb_ℤ (price_rank p) (price_rank best) && is_before model best_model))

-- One round of the loop of `fallbackPrice`.
unfoldable pub consider : ℤ → String → Best → String × Price → Best
unfolding may_lend price_rank
consider max_sane for_model best entry =
    if may_lend max_sane for_model entry && lends_more best entry then some entry else best

unfoldable pub consider_all : ℤ → String → Best → Map Price → Best
unfolding consider
consider_all max_sane for_model best [] = best
consider_all max_sane for_model best (e ∷ prices) =
    consider_all max_sane for_model (consider max_sane for_model best e) prices

abbrev pub unless_nameless : Best → Best
unless_nameless none = none
unless_nameless (some (model, p)) = if str_eq model "" then none else some (model, p)

-- `fallbackPrice`
unfoldable pub fallback_price : ℤ → Map Price → String → Best
unfolding consider_all
fallback_price max_sane prices for_model =
    unless_nameless (consider_all max_sane for_model none prices)

-- The costs that a feed or a catalogue lists, by provider and by model.
abbrev pub Listed : Type 0
Listed = Map (Map Cost)

unfoldable pub index_by_id : Texts → Map Cost → Map Cost → Map Cost
index_by_id t index [] = index
index_by_id t index ((k, v) ∷ models) = index_by_id t (insert (canonical_id t k) v index) models

unfoldable pub first_listed : String → Map Cost → List String → Option Price
first_listed source index [] = none
first_listed source index (id ∷ ids) = elim (lookup id index) [
  | none ↦ first_listed source index ids
  | some c ↦ some (record { cost = c; source = source })
]

-- `feedPriceFrom` and `catalogPriceFrom`
unfoldable pub price_from : Texts → String → Map Cost → String → Option Price
unfolding index_by_id first_listed
price_from t source models model =
    first_listed source (index_by_id t [] models) (lookup_ids t model)

abbrev pub model_price_in : Texts → String → String → Option (Map Cost) → Option Price
model_price_in t source model none = none
model_price_in t source model (some models) = price_from t source models model

-- `feedPrice` and `catalogModelPrice`
unfoldable pub model_price : Texts → String → Listed → String → String → Option Price
unfolding price_from
model_price t source listed catalog_id model =
    if str_eq catalog_id "" then none else model_price_in t source model (lookup catalog_id listed)

abbrev pub rehosts : String → Bool
rehosts id = str_eq id "azure-openai" || str_eq id "dashscope"

-- The comparison of `anyProviderOrder`.
abbrev pub comes_first : String → String → Bool
comes_first a b = if rehosts a then rehosts b && is_before a b else rehosts b || is_before a b

abbrev pub keys {ℓ} : {V : Type ℓ} → Map V → List String
keys m = map (λ e. e.0) m

-- `anyProviderOrder(config.SortedKeys(·))`
abbrev pub any_provider_order : Listed → List String
any_provider_order listed = sort_by comes_first (sort_by is_before (keys listed))

abbrev pub unless_zero : Option Price → Option Price
unless_zero none = none
unless_zero (some p) = if costs_nothing p.cost then none else some p

unfoldable pub first_price : (String → Option Price) → List String → Option Price
first_price price [] = none
first_price price (id ∷ ids) = elim (price id) [ none ↦ first_price price ids | some p ↦ some p ]

-- What one provider's list says of a model, where a rate of zero says nothing.
abbrev pub offered : Texts → String → Listed → String → String → Option Price
offered t source listed model id = unless_zero (model_price_in t source model (lookup id listed))

-- `feedAnyModelPrice` and `catalogAnyModelPrice`
unfoldable pub any_model_price : Texts → String → Listed → String → Option Price
unfolding first_price price_from
any_model_price t source listed model =
    first_price (offered t source listed model) (any_provider_order listed)
