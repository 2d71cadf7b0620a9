-- ===== src/Config/Validate/Servable.antt =====
-- backend/internal/config/config.go: what `validate` makes certain of each vendor.
use songguo.Prelude.{
  ℕ, ◌+◌, ◌≡◌, Bool, true, false, ◌&&◌, ◌||◌, not, Option, none, some, List, [], ◌∷◌, String, arith,
  inl, inr, if◌then◌else◌, str_eq, Bool-cases,
}
use songguo.Prelude.Int.{pos, leb_ℤ}
use songguo.Prelude.Map.{Map}
use songguo.Prelude.Member.{Mem, here, there}
use songguo.Config.{Proxy, Vendor}
use songguo.Config.Prices.{validate_prices}
use songguo.Config.Snapshot.{normalize, Snapshot}
use songguo.Config.Validate.{
  Url, Urls, Problem, one_if, seen_after, validate_parsed, validate_url_field, validate_endpoints,
  validate_served_models, validate_proxy, validate_name, validate_vendor, validate_from, validate,
  built, build,
}
use songguo.Config.Validate.Names.{append-nil-parts, accepted-built}

abbrev is_http : Url → Bool
is_http u = (str_eq u.scheme "http" || str_eq u.scheme "https") && not (str_eq u.host "")

-- A text that parses to an address of a host over http or https.
abbrev is_address : Option Url → Bool
is_address none = false
is_address (some u) = is_http u

abbrev pub IsUsable : Option Proxy → Type 0
IsUsable none = Unit
IsUsable (some p) =
    leb_ℤ (pos 1) p.port && leb_ℤ p.port (pos 65535) && not (str_eq p.host "") ≡ true

pub record IsServable (urls : Urls) (v : Vendor) : Type 0 where
  pub named : str_eq v.name "" ≡ false
  pub keyed : str_eq (v.credential).api_key "" ≡ false
  pub rooted : str_eq v.origin "" ≡ false
  pub origin : is_address (urls.parse v.origin) ≡ true
  pub endpoints :
      (e : String × String)
      → Mem e v.endpoints
      → is_address (urls.parse (urls.fill_model e.1)) ≡ true
  pub proxy : IsUsable v.proxy
  pub prices : validate_prices v.prices ≡ true

one_if-nil : (b : Bool) (p : Problem) → one_if b p ≡ [] → b ≡ false
one_if-nil b p e = ground (arith, e)

parsed-address : (raw : String) (o : Option Url) → validate_parsed raw o ≡ [] → is_address o ≡ true
parsed-address raw none e = cc e
parsed-address raw (some u) e = ground (arith, e)

field-address :
    (urls : Urls) (raw : String) (t : Bool)
    → validate_url_field urls raw t ≡ []
    → is_address (urls.parse (if t then urls.fill_model raw else raw)) ≡ true
field-address urls raw t e = elim (Bool-cases (str_eq raw "")) [
  | inl y ↦ cc (rw y at e)
  | inr n ↦ parsed-address raw (urls.parse (if t then urls.fill_model raw else raw)) (rw n at e)
]

field-nonempty :
    (urls : Urls) (raw : String) (t : Bool)
    → validate_url_field urls raw t ≡ []
    → str_eq raw "" ≡ false
field-nonempty urls raw t e = elim (Bool-cases (str_eq raw "")) [
  | inl y ↦ absurd (cc (rw y at e))
  | inr n ↦ n
]

validate_endpoints-address :
    (urls : Urls) (e : String × String) (eps : Map String)
    → validate_endpoints urls eps ≡ []
    → Mem e eps
    → is_address (urls.parse (urls.fill_model e.1)) ≡ true
unfolding validate_endpoints
validate_endpoints-address urls e _ h (here eps) =
    field-address urls e.1 true (append-nil-parts _ (validate_endpoints urls eps) h).0
validate_endpoints-address urls e _ h (there x eps m) =
    validate_endpoints-address urls e eps
      (append-nil-parts (validate_url_field urls x.1 true) (validate_endpoints urls eps) h).1 m

validate_proxy-IsUsable : (p : Option Proxy) → validate_proxy p ≡ [] → IsUsable p
validate_proxy-IsUsable none e = tt
validate_proxy-IsUsable (some p) e = ground (arith, e)

servable :
    (urls : Urls) (i : ℕ) (seen : List String) (v : Vendor)
    → validate_name i seen v.name ≡ []
    → validate_vendor urls v ≡ []
    → IsServable urls v
unfolding validate_vendor
servable urls i seen v n e =
    let a = append-nil-parts _ _ e in
    let b = append-nil-parts (validate_endpoints urls v.endpoints) _ a.1 in
    let c = append-nil-parts (validate_served_models v.served_models) _ b.1 in
    let d = append-nil-parts _ _ c.1 in
    let f = append-nil-parts (validate_proxy v.proxy) _ d.1 in
    record {
      named = ground (arith, n);
      keyed = one_if-nil _ _ d.0;
      rooted = field-nonempty urls v.origin false a.0;
      origin = field-address urls v.origin false a.0;
      endpoints = λ x m. validate_endpoints-address urls x v.endpoints b.0 m;
      proxy = validate_proxy-IsUsable v.proxy f.0;
      prices = ground (arith, f.1);
    }

validate_from-IsServable :
    (urls : Urls) (i : ℕ) (seen : List String) (vs : List Vendor) (v : Vendor)
    → validate_from urls i seen vs ≡ []
    → Mem v vs
    → IsServable urls v
unfolding validate_from
validate_from-IsServable urls i seen [] v e m = elim m [ ]
validate_from-IsServable urls i seen (_ ∷ vs) v e (here _) =
    let p = append-nil-parts (validate_name i seen v.name) _ e in
    servable urls i seen v p.0 (append-nil-parts (validate_vendor urls v) _ p.1).0
validate_from-IsServable urls i seen (w ∷ vs) v e (there _ _ m) =
    let p = append-nil-parts (validate_name i seen w.name) _ e in
    let q = append-nil-parts (validate_vendor urls w) _ p.1 in
    validate_from-IsServable urls (i + 1) (seen_after seen w.name) vs v q.1 m

-- Every vendor of an accepted configuration has a name and a key, an origin and endpoints that parse
-- to a host over http or https, a proxy, if any, with a host and a port from 1 to 65535, and prices in
-- which no problem was found.
pub build-IsServable :
    (urls : Urls) (vs : List Vendor) (s : Snapshot) (v : Vendor)
    → build urls vs ≡ built s
    → Mem v (normalize vs)
    → IsServable urls v
unfolding build
build-IsServable urls vs s v e m =
    validate_from-IsServable urls 0 [] (normalize vs) v
      (accepted-built (normalize vs) (validate urls (normalize vs)) s e).0 m
