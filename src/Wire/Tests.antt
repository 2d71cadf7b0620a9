-- ===== src/Wire/Tests.antt =====
-- Two wires that end one path.
use songguo.Prelude.{◌≡◌, refl, Option, some, List, [], ◌∷◌, String}
use songguo.Prelude.Map.{Map}
use songguo.Wire.{Wire, Match, normalize_path, resolve, wire_of}
use songguo.Wire.Resolved.{Matches, IsLongest, resolve-IsLongest}

abbrev chat : Wire
chat = record { name = "openai/chat"; suffixes = "/chat/completions" ∷ [] }

abbrev completions : Wire
completions = record { name = "openai/completions"; suffixes = "/completions" ∷ [] }

abbrev registry : Map Wire
registry = ("openai/chat", chat) ∷ ("openai/completions", completions) ∷ []

abbrev enabled : List String
enabled = "openai/chat" ∷ "openai/completions" ∷ "unknown" ∷ []

abbrev path : String
path = "/v1/chat/completions//?a=b"

served : resolve registry (λ s. s) enabled path ≡ some chat
unfolding resolve songguo.Prelude.Map.lookup
served = refl

resolve-IsLongest_example :
    (best : Option Match) × (resolve registry (λ s. s) enabled path ≡ wire_of best)
    × IsLongest (Matches registry (normalize_path (λ s. s) path) enabled) best
resolve-IsLongest_example = resolve-IsLongest registry (λ s. s) enabled path
