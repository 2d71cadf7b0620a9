-- ===== src/Manager/Tests.antt =====
-- A provider with endpoints of two kinds at one host, next to one whose URL has no host.
use songguo.Prelude.{
  ℕ, ◌<◌, ◌≡◌, refl, true, false, none, some, List, [], ◌∷◌, String, arith, str_eq, if◌then◌else◌,
  suc, ◌+◌, ◌||◌, Bool-cases, inl, inr, ap, eq_iff, map,
}
use songguo.Prelude.Int.{pos}
use songguo.Prelude.Map.{Map, lookup, insert}
use songguo.Prelude.Member.{here, there}
use songguo.Prelude.Sort.{sort_by}
use songguo.Catalog.{Cost}
use songguo.Config.{Price}
use songguo.Config.Snapshot.{Snapshot, new_snapshot, normalize}
use songguo.Config.Snapshot.Names.{IsDistinct}
use songguo.Config.Validate.{empty_url, invalid_url}
use songguo.Manager.{ProviderModel, Provider, ProviderEndpoint}
use songguo.Manager.Prices.{Texts, Listed, fallback_price, any_model_price, keys, offered}
use songguo.Manager.Prices.Lender.{IsBest, fallback_price-IsBest}
use songguo.Manager.Prices.Makers.{IsChoice, any_model_price-IsChoice}
use songguo.Manager.Groups.{vendors_of_groups}
use songguo.Manager.Groups.Names.{IsNumbering, vendors_of_groups-IsDistinct}
use songguo.Manager.Reload.{bad_config, Tools, Stored, build, loaded, reload, vendors_from_provider}
use songguo.Manager.Reload.Served.{IsServed, build-IsServed}
use songguo.Manager.Reload.Malformed.{IsKept}
use songguo.Manager.Reload.Collisions.{now, reload-collision}
use songguo.Manager.Reload.Named.{group_names}
use songguo.Manager.Table.{PriceSources, lend_all}
use songguo.Manager.Table.Kept.{lend_all-kept}
use songguo.Manager.Groups.{group_endpoints, group_name}
use songguo.Catalog.Rates.{validate_cost}

abbrev free : Cost
free = record {
  input = pos 0;
  output = pos 0;
  cache_read = pos 0;
  cache_write = pos 0;
  character = pos 0;
  second = pos 0;
  image = pos 0;
  call = pos 0;
  tiers = [];
  schedules = [];
}

abbrev rate : ℕ → Cost
rate n = record free { input = pos n; output = pos n }

abbrev plain : Texts
plain = record { lower = λ s. s; dash_version = λ s. s; drop_date = λ s. s }

abbrev stored : ℕ → Price
stored n = record { cost = rate n; source = "stored" }

-- The rates of a provider, of which one is mistyped.
abbrev rates : Map Price
rates =
    ("m1", stored 3)
    ∷ ("m2", stored 9)
    ∷ ("typo", stored 3_000_000)
    ∷ ("m0", stored 9)
    ∷ ("new", record { cost = free; source = "unpriced" })
    ∷ []

lends_m0 : fallback_price (pos 1_000) rates "new" ≡ some ("m0", stored 9)
unfolding fallback_price
lends_m0 = refl

fallback_price-IsBest_example :
    IsBest (pos 1_000) "new" rates (fallback_price (pos 1_000) rates "new")
fallback_price-IsBest_example =
    fallback_price-IsBest (pos 1_000) rates "new" (refl, (refl, (refl, (refl, (refl, tt)))))

abbrev row : String → ProviderModel
row name = record {
  model = name;
  cost = free;
  price_override = false;
  routing_enabled = true;
  routing_configured = false;
  priority_override = none;
  weight_override = none;
}

-- A model that the catalogue lists as free.
abbrev gift : Price
gift = record { cost = free; source = "catalog" }

new_is_lent :
    lookup "new" (lend_all (pos 1_000) (("gift", gift) ∷ rates) (row "gift" ∷ row "new" ∷ []))
    ≡ some (record { cost = rate 9; source = "fallback:m0" })
unfolding lend_all lookup insert
new_is_lent = refl

lend_all-kept_example :
    lookup "gift" (lend_all (pos 1_000) (("gift", gift) ∷ rates) (row "gift" ∷ row "new" ∷ []))
    ≡ some gift
unfolding lookup
lend_all-kept_example =
    lend_all-kept (pos 1_000) (("gift", gift) ∷ rates) (row "gift" ∷ row "new" ∷ []) "gift" gift
      refl refl

abbrev listed : Listed
listed =
    ("azure-openai", ("grok", rate 2) ∷ [])
    ∷ ("xai", ("grok", rate 1) ∷ [])
    ∷ ("a-lab", ("grok", free) ∷ [])
    ∷ []

maker_wins :
    any_model_price plain "feed" listed "grok" ≡ some (record { cost = rate 1; source = "feed" })
unfolding any_model_price sort_by lookup insert
maker_wins = refl

any_model_price-IsChoice_example :
    IsChoice
      (offered plain "feed" listed "grok")
      (keys listed)
      (any_model_price plain "feed" listed "grok")
any_model_price-IsChoice_example = any_model_price-IsChoice plain "feed" listed "grok"

-- Letters in front of a text stand for a number behind it.
abbrev crosses : ℕ → String → String
crosses ℕ.zero s = s
crosses (suc n) s = String.◌∷◌ "x" (crosses n s)

abbrev size : String → ℕ
size String.[] = 0
size (String.◌∷◌ c s) = suc (size s)

size-crosses : (n : ℕ) (s : String) → size (crosses n s) ≡ n + size s
size-crosses ℕ.zero s = omega arith
size-crosses (suc n) s = omega (arith, size-crosses n s)

abbrev numbered : String → ℕ → String
numbered stem n = crosses (suc n) stem

differ : (s t : String) → size s < size t → str_eq s t ≡ false
differ s t l = elim (Bool-cases (str_eq s t)) [
  | inl y ↦ absurd (omega (arith, l, ap size ((eq_iff s t).0 y)))
  | inr n ↦ n
]

numbered-IsNumbering : IsNumbering numbered
numbered-IsNumbering = record {
  longer = λ stem n. differ stem (numbered stem n) (omega (arith, size-crosses (suc n) stem));
  distinct = λ stem i j l.
      differ (numbered stem i) (numbered stem j)
        (omega (arith, l, size-crosses (suc i) stem, size-crosses (suc j) stem));
}

abbrev home : String
home = "https://api.deepseek.com"

abbrev tools : Tools
tools = record {
  texts = plain;
  urls = record {
    parse = λ s.
        if str_eq s home
        then some (record { scheme = "https"; host = "api.deepseek.com" })
        else none;
    fill_model = λ s. s;
  };
  numbered = numbered;
  is_wire = λ w. str_eq w "chat" || str_eq w "messages";
  max_sane = pos 1_000;
}

abbrev chat : ProviderEndpoint
chat = record { wire = "chat"; endpoint = home; adapter = "openai-compatible" }

abbrev messages : ProviderEndpoint
messages = record { wire = "messages"; endpoint = home; adapter = "anthropic-compatible" }

abbrev provider : String → List ProviderEndpoint → Provider
provider name endpoints = record {
  id = name;
  name = name;
  priority = pos 0;
  weight = pos 1;
  enabled = true;
  catalog_id = "";
  api_key = "sk";
  proxy_id = "";
  allow_unmatched = false;
  max_concurrency = pos 0;
  quirks = [];
  models = record (row "m1") { cost = rate 3 } ∷ [];
  endpoints = endpoints;
}

abbrev deepseek : Provider
deepseek = provider "deepseek" (messages ∷ chat ∷ [])

abbrev rival : Provider
rival = provider "deepseek-anthropic" (chat ∷ [])

abbrev broken : Provider
broken = provider "broken" (record chat { endpoint = "api.example.com" } ∷ [])

abbrev rows : List Provider → Stored
rows pvds = record {
  providers = some pvds;
  proxies = some [];
  catalog = some [];
  pinned = some [];
  feed = none;
}

abbrev sources : PriceSources
sources = record { feed = []; catalog = []; pinned = [] }

two_groups :
    map (λ v. v.name) (vendors_from_provider tools sources deepseek none)
    ≡ "deepseek" ∷ "deepseek-anthropic" ∷ []
unfolding vendors_from_provider sort_by
two_groups = refl

vendors_of_groups-IsDistinct_example : IsDistinct (
    vendors_of_groups numbered deepseek none [] [] (
      record { origin = home; adapter = "mcp"; endpoints = [] }
      ∷ record { origin = home; adapter = "other"; endpoints = [] }
      ∷ record { origin = home; adapter = "third"; endpoints = [] }
      ∷ []))
vendors_of_groups-IsDistinct_example =
    vendors_of_groups-IsDistinct numbered deepseek none []
      (record { origin = home; adapter = "mcp"; endpoints = [] }
        ∷ record { origin = home; adapter = "other"; endpoints = [] }
        ∷ record { origin = home; adapter = "third"; endpoints = [] }
        ∷ [])
      numbered-IsNumbering

abbrev serving : Snapshot
serving = new_snapshot (normalize (vendors_from_provider tools sources deepseek none))

deepseek_loads : build tools (rows (deepseek ∷ [])) ≡ loaded serving
unfolding build vendors_from_provider sort_by normalize lookup insert validate_cost
deepseek_loads = refl

build-IsServed_example : IsServed tools messages serving
build-IsServed_example =
    build-IsServed tools (rows (deepseek ∷ [])) serving (deepseek ∷ []) deepseek messages refl
      (here _) refl (here _) refl deepseek_loads

broken_stops :
    (reload tools serving (rows (deepseek ∷ broken ∷ []))).error
    ≡ some (bad_config (empty_url ∷ invalid_url "api.example.com" ∷ []))
unfolding reload vendors_from_provider sort_by normalize lookup insert validate_cost
broken_stops = refl

reload-collision_example : IsKept serving (reload tools serving (rows (deepseek ∷ rival ∷ [])))
unfolding group_names sort_by group_endpoints group_name
reload-collision_example =
    reload-collision tools serving (rows (deepseek ∷ rival ∷ [])) (deepseek ∷ rival ∷ []) deepseek
      rival "deepseek-anthropic" refl (now _ (here _)) refl refl (there _ _ (here _)) (here _)
