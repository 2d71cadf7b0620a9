-- ===== src/Config/Snapshot/Tests.antt =====
-- A small configuration.
use songguo.Prelude.{◌≡◌, refl, true, false, none, [], ◌∷◌}
use songguo.Prelude.Int.{pos, negsuc}
use songguo.Prelude.Map.{lookup, insert, get_or}
use songguo.Config.{Vendor}
use songguo.Config.Snapshot.{new_snapshot, vendors_for_model, routed}
use songguo.Config.Snapshot.Index.{serving, vendors_for_model-serving}

-- It serves "m" by a route of its own, and "n" by a route that is disabled.
abbrev routed_vendor : Vendor
routed_vendor = record {
  name = "a";
  origin = "https://a.example";
  adapter = "";
  served_models = "m" ∷ "n" ∷ [];
  priority = pos 2;
  weight = negsuc 3;
  model_routes =
      ("m", record { enabled = true; priority = pos 1; weight = pos 9 })
      ∷ ("n", record { enabled = false; priority = pos 1; weight = pos 9 })
      ∷ [];
  credential = record { id = ""; api_key = "secret" };
  proxy = none;
  prices = [];
  wires = [];
  endpoints = ("openai/chat", "https://a.example/v1") ∷ [];
  allow_unmatched = false;
  max_concurrency = pos 4;
  quirks = [];
}

disabled_route : vendors_for_model (new_snapshot (routed_vendor ∷ [])) "n" ≡ []
unfolding vendors_for_model new_snapshot routed get_or lookup insert
disabled_route = refl

vendors_for_model-serving_example :
    vendors_for_model (new_snapshot (routed_vendor ∷ [])) "m" ≡ serving (routed_vendor ∷ []) "m"
vendors_for_model-serving_example = vendors_for_model-serving (routed_vendor ∷ []) "m"
