-- ===== src/Fingerprint/Tests.antt =====
-- A request of two messages, the second with a tool call.
use songguo.Prelude.{ℕ, ◌≡◌, ◌≢◌, refl, List, [], ◌∷◌, ◌++◌, take, arith, length, All}
use songguo.Fingerprint.{Message, write_messages}
use songguo.Fingerprint.Encoding.{IsShortMessage, write_messages-inj}

abbrev said : List ℕ → List ℕ → Message
said role text = record { role = role; text = text; tool_call_id = []; name = []; tool_calls = [] }

abbrev asked : Message
asked = record {
  role = 97 ∷ [];
  text = [];
  tool_call_id = [];
  name = [];
  tool_calls = (record { id = 49 ∷ []; name = 102 ∷ []; arguments = 123 ∷ 125 ∷ [] }) ∷ [];
}

abbrev request : List Message
request = said (117 ∷ []) (104 ∷ 105 ∷ []) ∷ asked ∷ []

request-IsShort : All IsShortMessage request
request-IsShort = (
  record {
    role = omega arith;
    text = omega arith;
    tool_call_id = omega arith;
    name = omega arith;
    count = omega arith;
    tool_calls = tt;
  },
  (
    record {
      role = omega arith;
      text = omega arith;
      tool_call_id = omega arith;
      name = omega arith;
      count = omega arith;
      tool_calls = (record { id = omega arith; name = omega arith; arguments = omega arith }, tt);
    },
    tt,
  ),
)

-- The fields of one message are not those of another, although the texts together are.
moved_byte :
    write_messages (said (97 ∷ 98 ∷ []) (99 ∷ []) ∷ [])
    ≢ write_messages (said (97 ∷ []) (98 ∷ 99 ∷ []) ∷ [])
unfolding write_messages
moved_byte e = cc e

-- A sum that starts with the length stands for SHA-256.
abbrev summed : List ℕ → List ℕ
summed xs = length xs ∷ xs

-- The same request, as a longer one starts with it.
abbrev again : List Message
again = take 2 (request ++ asked ∷ [])

write_messages-inj_example : request ≡ again
write_messages-inj_example = write_messages-inj request again request-IsShort request-IsShort refl
