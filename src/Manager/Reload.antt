-- ===== src/Manager/Reload.antt =====
-- backend/internal/configsvc/manager.go: `build`, `Reload` and `NewManager`. What the store and the
-- catalogue answer is an argument, where `none` is an error.
pub mod Served
pub mod Malformed
pub mod Named
pub mod Collisions
use songguo.Prelude.{
  ℕ, Bool, true, false, ◌&&◌, ◌||◌, not, Option, none, some, List, [], ◌∷◌, ◌++◌, String,
  if◌then◌else◌, str_eq,
}
use songguo.Prelude.Int.{ℤ}
use songguo.Prelude.Map.{Map, lookup, insert}
use songguo.Prelude.Sort.{sort_by}
use songguo.Config.{Vendor, Proxy}
use songguo.Config.Snapshot.{Snapshot, new_snapshot}
use songguo.Config.Validate.{Urls, Problem, Result, refused, built}
use songguo.Config.Validate as Validate
use songguo.Manager.{Provider, ProviderModel}
use songguo.Manager.Prices.{Texts, Listed}
use songguo.Manager.Table.{PriceSources, prices_of}
use songguo.Manager.Groups.{group_endpoints, group_less, vendors_of_groups}

-- The code outside the configuration: regular expressions, URLs, numbers as text, the registry of
-- wires, and the bound on a plausible rate.
pub record Tools : Type 0 where
  pub texts : Texts
  pub urls : Urls
  pub numbered : String → ℕ → String
  pub is_wire : String → Bool
  pub max_sane : ℤ

-- `vendorsFromProvider`
unfoldable pub vendors_from_provider : Tools → PriceSources → Provider → Option Proxy → List Vendor
unfolding vendors_of_groups group_endpoints prices_of
vendors_from_provider tools src pvd proxy =
    vendors_of_groups tools.numbered pvd proxy (prices_of tools.texts src tools.max_sane pvd) []
      (sort_by group_less (group_endpoints tools.is_wire tools.urls pvd.endpoints []))

unfoldable pub proxies_by_id : List Proxy → Map Proxy → Map Proxy
proxies_by_id [] m = m
proxies_by_id (p ∷ ps) m = proxies_by_id ps (insert p.id p m)

abbrev has_models : List ProviderModel → Bool
has_models [] = false
has_models (m ∷ ms) = true

-- Neither disabled nor without a key or models.
abbrev pub is_complete : Provider → Bool
is_complete pvd = pvd.enabled && not (str_eq pvd.api_key "") && has_models pvd.models

pub data Assembled : Type 0 where
  missing_proxy : String → Assembled
  assembled : List Vendor → Assembled

abbrev pub after_vendors : List Vendor → Assembled → Assembled
after_vendors vs (missing_proxy name) = missing_proxy name
after_vendors vs (assembled ws) = assembled (vs ++ ws)

-- The proxy of a provider; an id that is not stored is an error.
abbrev pub proxy_of : Map Proxy → String → Option (Option Proxy)
proxy_of proxies id =
    if str_eq id ""
    then some none
    else elim (lookup id proxies) [ none ↦ none | some p ↦ some (some p) ]

abbrev pub joined_to :
    Tools → PriceSources → Provider → Assembled → Option (Option Proxy) → Assembled
joined_to tools src pvd rest none = missing_proxy pvd.name
joined_to tools src pvd rest (some proxy) =
    after_vendors (vendors_from_provider tools src pvd proxy) rest

-- The loop of `build`.
unfoldable pub assemble : Tools → PriceSources → Map Proxy → List Provider → Assembled
unfolding vendors_from_provider
assemble tools src proxies [] = assembled []
assemble tools src proxies (pvd ∷ pvds) =
    let rest = assemble tools src proxies pvds in
    if is_complete pvd then joined_to tools src pvd rest (proxy_of proxies pvd.proxy_id) else rest

-- What the store and the catalogue answer.
pub record Stored : Type 0 where
  pub providers : Option (List Provider)
  pub proxies : Option (List Proxy)
  pub catalog : Option Listed
  pub pinned : Option Listed
  pub feed : Option Listed

pub data Failure : Type 0 where
  providers_unread : Failure
  proxies_unread : Failure
  catalog_unread : Failure
  pinned_unread : Failure
  without_proxy : String → Failure
  bad_config : List Problem → Failure

pub data Outcome : Type 0 where
  failed : Failure → Outcome
  loaded : Snapshot → Outcome

abbrev pub outcome_of_result : Result → Outcome
outcome_of_result (refused ps) = failed (bad_config ps)
outcome_of_result (built s) = loaded s

abbrev pub finished : Urls → Assembled → Outcome
finished urls (missing_proxy name) = failed (without_proxy name)
finished urls (assembled vs) = outcome_of_result (Validate.build urls vs)

-- A feed that cannot be read is empty.
abbrev pub feed_or_empty : Option Listed → Listed
feed_or_empty none = []
feed_or_empty (some feed) = feed

-- `build`, by what could be read.
abbrev pub build_read :
    Tools
    → Option (List Provider)
    → Option (List Proxy)
    → Option Listed
    → Option Listed
    → Option Listed
    → Outcome
build_read tools none proxies catalog pinned feed = failed providers_unread
build_read tools (some pvds) none catalog pinned feed = failed proxies_unread
build_read tools (some pvds) (some proxies) none pinned feed = failed catalog_unread
build_read tools (some pvds) (some proxies) (some catalog) none feed = failed pinned_unread
build_read tools (some pvds) (some proxies) (some catalog) (some pinned) feed =
    finished tools.urls (
      assemble tools (record { feed = feed_or_empty feed; catalog = catalog; pinned = pinned })
        (proxies_by_id proxies []) pvds)

unfoldable pub build : Tools → Stored → Outcome
unfolding assemble proxies_by_id Validate.build
build tools st = build_read tools st.providers st.proxies st.catalog st.pinned st.feed

-- `Reload`: the snapshot afterwards, and the error.
pub record Reloaded : Type 0 where
  pub current : Snapshot
  pub error : Option Failure

abbrev pub swapped : Snapshot → Outcome → Reloaded
swapped current (failed e) = record { current = current; error = some e }
swapped current (loaded s) = record { current = s; error = none }

unfoldable pub reload : Tools → Snapshot → Stored → Reloaded
unfolding build
reload tools current st = swapped current (build tools st)

-- `NewManager`: a failure leaves it with the empty configuration.
unfoldable pub new_manager : Tools → Stored → Snapshot
unfolding reload
new_manager tools st = (reload tools (new_snapshot []) st).current
