-- ===== src/Manager/Groups.antt =====
-- backend/internal/configsvc/manager.go: the endpoints of a provider, grouped into vendors.
pub mod Names
pub mod Coverage
use Prim.Native.String.{◌++◌ as str_append}
use songguo.Prelude.{
  ℕ, suc, ◌+◌, Bool, true, false, ◌&&◌, ◌||◌, not, Option, none, some, List, [], ◌∷◌, ◌++◌, map,
  String, length, if◌then◌else◌, str_eq, ltb, ◌==◌, is_before,
}
use songguo.Prelude.Map.{Map, insert}
use songguo.Prelude.Sort.{sort_by}
use songguo.Config.{Vendor, Proxy, Price}
use songguo.Config.Validate.{Url, Urls, contains}
use songguo.Manager.{Provider, ProviderEndpoint, ProviderModel}
use songguo.Manager.Table.{model_routes}

-- `originOf`
abbrev pub origin_in : Option Url → String
origin_in none = ""
origin_in (some u) =
    if str_eq u.scheme "" || str_eq u.host ""
    then ""
    else str_append u.scheme (str_append "://" u.host)

unfoldable pub origin_of : Urls → String → String
origin_of urls raw = origin_in (urls.parse (urls.fill_model raw))

-- `adapterRank` and `adapterSlug`
abbrev pub adapter_rank : String → ℕ
adapter_rank a =
    if str_eq a "openai-compatible"
    then 0
    else if str_eq a "anthropic-compatible"
    then 1
    else if str_eq a "volc-speech"
    then 2
    else 3

abbrev pub adapter_slug : String → String
adapter_slug a =
    if str_eq a "anthropic-compatible"
    then "anthropic"
    else if str_eq a "volc-speech"
    then "speech"
    else "openai"

-- `groupKey`, with the endpoints of the group.
pub record Group : Type 0 where
  pub origin : String
  pub adapter : String
  pub endpoints : List ProviderEndpoint

abbrev pub is_group : String → String → Group → Bool
is_group origin adapter g = str_eq g.origin origin && str_eq g.adapter adapter

-- `groups[k] = append(groups[k], ep)`, where a new key goes to the end of `order`.
unfoldable pub add_endpoint : String → ProviderEndpoint → List Group → List Group
add_endpoint origin ep [] =
    record { origin = origin; adapter = ep.adapter; endpoints = ep ∷ [] } ∷ []
add_endpoint origin ep (g ∷ gs) =
    if is_group origin ep.adapter g
    then record g { endpoints = g.endpoints ++ ep ∷ [] } ∷ gs
    else g ∷ add_endpoint origin ep gs

-- The loop over the endpoints; a wire that is not registered is dropped.
unfoldable pub group_endpoints :
    (String → Bool) → Urls → List ProviderEndpoint → List Group → List Group
unfolding add_endpoint origin_of
group_endpoints is_wire urls [] gs = gs
group_endpoints is_wire urls (ep ∷ eps) gs =
    group_endpoints is_wire urls eps
      (if is_wire ep.wire then add_endpoint (origin_of urls ep.endpoint) ep gs else gs)

abbrev pub group_less : Group → Group → Bool
group_less a b =
    if adapter_rank a.adapter == adapter_rank b.adapter
    then is_before a.origin b.origin
    else ltb (adapter_rank a.adapter) (adapter_rank b.adapter)

-- The loop that looks for a name not yet used, from `n` on. `numbered` is `fmt.Sprintf` with "%s-%d".
unfoldable pub free_name : (String → ℕ → String) → String → List String → ℕ → ℕ → String → String
free_name numbered stem used ℕ.zero n name = name
free_name numbered stem used (suc fuel) n name =
    let later = free_name numbered stem used fuel (n + 1) (numbered stem n) in
    if contains name used then later else name

abbrev pub stem_of : String → String → String
stem_of provider adapter = str_append provider (str_append "-" (adapter_slug adapter))

-- The name of a group, of which the first keeps the name of the provider. There are fewer names in
-- use than the fuel.
unfoldable pub group_name : (String → ℕ → String) → String → List String → String → String
unfolding free_name
group_name numbered provider [] adapter = provider
group_name numbered provider (name ∷ used) adapter =
    let stem = stem_of provider adapter in
    free_name numbered stem (name ∷ used) (suc (length (name ∷ used))) 2 stem

unfoldable pub endpoint_map : List ProviderEndpoint → Map String → Map String
endpoint_map [] m = m
endpoint_map (ep ∷ eps) m = endpoint_map eps (insert ep.wire ep.endpoint m)

-- The `config.Vendor` of a group.
unfoldable pub vendor_of_group : Provider → Option Proxy → Map Price → String → Group → Vendor
unfolding endpoint_map model_routes
vendor_of_group pvd proxy prices name g = record {
  name = name;
  origin = g.origin;
  adapter = g.adapter;
  served_models = map (λ m. m.model) pvd.models;
  priority = pvd.priority;
  weight = pvd.weight;
  model_routes = model_routes pvd pvd.models [];
  credential = record { id = pvd.id; api_key = pvd.api_key };
  proxy = proxy;
  prices = prices;
  wires = map (λ e. e.wire) g.endpoints;
  endpoints = endpoint_map g.endpoints [];
  allow_unmatched = pvd.allow_unmatched;
  max_concurrency = pvd.max_concurrency;
  quirks = pvd.quirks;
}

-- The loop over `order`.
unfoldable pub vendors_of_groups :
    (String → ℕ → String)
    → Provider
    → Option Proxy
    → Map Price
    → List String
    → List Group
    → List Vendor
unfolding vendor_of_group group_name
vendors_of_groups numbered pvd proxy prices used [] = []
vendors_of_groups numbered pvd proxy prices used (g ∷ gs) =
    let name = group_name numbered pvd.name used g.adapter in
    vendor_of_group pvd proxy prices name g
    ∷ vendors_of_groups numbered pvd proxy prices (name ∷ used) gs
