-- ===== src/Config/Validate.antt =====
-- backend/internal/config/config.go: `Build`, and what it refuses. The text of an error is left out,
-- url.Parse and ReplaceAll of the placeholder are arguments.
pub mod Names
pub mod Servable
pub mod Tests
use songguo.Prelude.{
  ℕ, ◌+◌, Bool, true, false, ◌&&◌, ◌||◌, not, Option, none, some, List, [], ◌∷◌, ◌++◌, String,
  if◌then◌else◌, str_eq,
}
use songguo.Prelude.Int.{ℤ, pos, ltb_ℤ}
use songguo.Prelude.Map.{Map}
use songguo.Config.{Proxy, Vendor}
use songguo.Config.Prices.{validate_prices}
use songguo.Config.Snapshot.{Snapshot, normalize, new_snapshot}

-- What the code reads of a `url.URL`.
pub record Url : Type 0 where
  pub scheme : String
  pub host : String

-- net/url and strings.
pub record Urls : Type 0 where
  pub parse : String → Option Url
  pub fill_model : String → String

pub data Problem : Type 0 where
  no_name : ℕ → Problem
  duplicate_name : String → Problem
  empty_url : Problem
  invalid_url : String → Problem
  not_http : String → Problem
  no_host : String → Problem
  no_models : Problem
  empty_model : Problem
  duplicate_model : String → Problem
  no_api_key : Problem
  proxy_no_id : Problem
  proxy_bad_type : String → Problem
  proxy_no_host : Problem
  proxy_bad_port : ℤ → Problem
  bad_prices : Problem

abbrev pub contains : String → List String → Bool
contains x [] = false
contains x (y ∷ ys) = str_eq x y || contains x ys

-- One problem, if a test says so.
abbrev pub one_if : Bool → Problem → List Problem
one_if b p = if b then p ∷ [] else []

abbrev pub validate_parsed : String → Option Url → List Problem
validate_parsed raw none = invalid_url raw ∷ []
validate_parsed raw (some u) =
    if not (str_eq u.scheme "http") && not (str_eq u.scheme "https")
    then not_http raw ∷ []
    else one_if (str_eq u.host "") (no_host raw)

-- `validateURLField`
abbrev pub validate_url_field : Urls → String → Bool → List Problem
validate_url_field urls raw allow_template =
    if str_eq raw ""
    then empty_url ∷ []
    else validate_parsed raw (urls.parse (if allow_template then urls.fill_model raw else raw))

-- `validateOrigin` and `validateEndpoint`
abbrev pub validate_origin : Urls → String → List Problem
validate_origin urls origin = validate_url_field urls origin false

abbrev pub validate_endpoint : Urls → String → List Problem
validate_endpoint urls ep = validate_url_field urls ep true

unfoldable pub validate_endpoints : Urls → Map String → List Problem
validate_endpoints urls [] = []
validate_endpoints urls ((wire, ep) ∷ eps) =
    validate_endpoint urls ep ++ validate_endpoints urls eps

-- The loop of `validateServedModels`, with the models seen.
unfoldable pub validate_models : List String → List String → List Problem
validate_models seen [] = []
validate_models seen (m ∷ ms) =
    let rest = validate_models seen ms in
    let more = validate_models (m ∷ seen) ms in
    if str_eq m ""
    then empty_model ∷ rest
    else if contains m seen
    then duplicate_model m ∷ rest
    else more

unfoldable pub validate_served_models : List String → List Problem
unfolding validate_models
validate_served_models [] = no_models ∷ []
validate_served_models (m ∷ ms) = validate_models [] (m ∷ ms)

-- `validateProxy`
abbrev pub validate_proxy : Option Proxy → List Problem
validate_proxy none = []
validate_proxy (some p) =
    one_if (str_eq p.id "") proxy_no_id
    ++ (one_if (not (str_eq p.kind "https") && not (str_eq p.kind "socks5")) (proxy_bad_type p.kind)
        ++ (one_if (str_eq p.host "") proxy_no_host
            ++ one_if (ltb_ℤ p.port (pos 1) || ltb_ℤ (pos 65535) p.port) (proxy_bad_port p.port)))

-- The names: what the loop finds wrong with one, and the names seen after it.
abbrev pub validate_name : ℕ → List String → String → List Problem
validate_name i seen name =
    if str_eq name "" then no_name i ∷ [] else one_if (contains name seen) (duplicate_name name)

abbrev pub seen_after : List String → String → List String
seen_after seen name =
    if str_eq name "" then seen else if contains name seen then seen else name ∷ seen

-- The rest of one round of `validate`.
unfoldable pub validate_vendor : Urls → Vendor → List Problem
unfolding validate_endpoints validate_served_models validate_prices
validate_vendor urls v =
    validate_origin urls v.origin
    ++ (validate_endpoints urls v.endpoints
        ++ (validate_served_models v.served_models
            ++ (one_if (str_eq (v.credential).api_key "") no_api_key
                ++ (validate_proxy v.proxy ++ one_if (not (validate_prices v.prices)) bad_prices))))

unfoldable pub validate_from : Urls → ℕ → List String → List Vendor → List Problem
unfolding validate_vendor
validate_from urls i seen [] = []
validate_from urls i seen (v ∷ vs) =
    validate_name i seen v.name
    ++ (validate_vendor urls v ++ validate_from urls (i + 1) (seen_after seen v.name) vs)

-- `validate`
abbrev pub validate : Urls → List Vendor → List Problem
validate urls vs = validate_from urls 0 [] vs

pub data Result : Type 0 where
  refused : List Problem → Result
  built : Snapshot → Result

abbrev pub accepted : List Vendor → List Problem → Result
accepted vs [] = built (new_snapshot vs)
accepted vs (p ∷ ps) = refused (p ∷ ps)

-- `Build`
unfoldable pub build : Urls → List Vendor → Result
unfolding validate_from
build urls vs = let vendors = normalize vs in accepted vendors (validate urls vendors)
