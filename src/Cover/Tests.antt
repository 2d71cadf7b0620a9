-- ===== src/Cover/Tests.antt =====
-- A session with two interleaved conversations, a fork, a request without a fingerprint and one
-- whose body was not captured.
use songguo.Prelude.{ℕ, ◌≡◌, refl, Bool, true, false, List, [], ◌∷◌, String}
use songguo.Prelude.Int.{pos}
use songguo.Prelude.Member.{here}
use songguo.Prelude.Map.{lookup, insert}
use songguo.Prelude.Sort.{sort_by}
use songguo.Cover.{Shape, message_cover, extends}
use songguo.Cover.Complete.{IsCovered, message_cover-IsCovered}

abbrev shape : String → ℕ → ℕ → String → String → Bool → Shape
shape id ts count head tail raw = record {
  call_id = id;
  agent_id = "main";
  ts = ts;
  count = pos count;
  head = head;
  tail = tail;
  has_raw = raw;
}

abbrev first : Shape
first = shape "1" 10 1 "a" "x" true

abbrev side : Shape
side = shape "2" 11 1 "b" "y" true

abbrev second : Shape
second = shape "3" 12 3 "a" "z" true

abbrev unknown : Shape
unknown = shape "4" 13 0 "" "" true

abbrev forked : Shape
forked = shape "5" 14 3 "a" "w" true

abbrev lost : Shape
lost = shape "6" 15 5 "a" "v" false

abbrev session : List Shape
session = first ∷ side ∷ second ∷ unknown ∷ forked ∷ lost ∷ []

session_cover : message_cover session ≡ side ∷ second ∷ unknown ∷ forked ∷ []
unfolding message_cover sort_by lookup insert extends
session_cover = refl

message_cover-IsCovered_example : IsCovered first (message_cover session)
message_cover-IsCovered_example = message_cover-IsCovered session first (here _) refl
