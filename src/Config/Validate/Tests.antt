-- ===== src/Config/Validate/Tests.antt =====
-- Two providers at one host, the second behind a proxy, and what is refused of worse ones.
use songguo.Prelude.{
  ◌≡◌, refl, false, Option, none, some, List, [], ◌∷◌, String, if◌then◌else◌, str_eq,
}
use songguo.Prelude.Int.{pos, negsuc}
use songguo.Config.{Vendor, Proxy}
use songguo.Config.Snapshot.{normalize, new_snapshot}
use songguo.Config.Validate.{Urls, build, built, refused, duplicate_name}

abbrev home : String
home = "https://api.example.com"

-- Only one address parses.
abbrev urls : Urls
urls = record {
  parse = λ s.
      if str_eq s home then some (record { scheme = "https"; host = "api.example.com" }) else none;
  fill_model = λ s. s;
}

abbrev tunnel : Proxy
tunnel = record {
  id = "p1";
  name = "tunnel";
  kind = "socks5";
  host = "10.0.0.1";
  port = pos 1080;
  username = "";
  password = "";
}

abbrev plain : String → Option Proxy → Vendor
plain name proxy = record {
  name = name;
  origin = home;
  adapter = "";
  served_models = "m1" ∷ "m2" ∷ [];
  priority = pos 0;
  weight = negsuc 0;
  model_routes = [];
  credential = record { id = ""; api_key = "sk" };
  proxy = proxy;
  prices = [];
  wires = [];
  endpoints = ("openai/chat", home) ∷ [];
  allow_unmatched = false;
  max_concurrency = pos 0;
  quirks = [];
}

abbrev pair : List Vendor
pair = plain "a" none ∷ plain "b" (some tunnel) ∷ []

pair_builds : build urls pair ≡ built (new_snapshot (normalize pair))
unfolding build normalize
pair_builds = refl

twice_refused :
    build urls (plain "a" none ∷ plain "a" none ∷ []) ≡ refused (duplicate_name "a" ∷ [])
unfolding build normalize
twice_refused = refl
