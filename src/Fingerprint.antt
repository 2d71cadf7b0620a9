-- ===== src/Fingerprint.antt =====
-- backend/internal/parse/fingerprint.go: the fingerprint of a request's messages. Text is a list of
-- bytes, and SHA-256 an argument.
pub mod Encoding
pub mod Tests
use songguo.Prelude.{ℕ, ◌/◌, ◌%◌, ◌^◌, List, [], ◌∷◌, ◌++◌, length, take}

pub record ToolCall : Type 0 where
  pub id : List ℕ
  pub name : List ℕ
  pub arguments : List ℕ

-- `Message`
pub record Message : Type 0 where
  pub role : List ℕ
  pub text : List ℕ
  pub tool_call_id : List ℕ
  pub name : List ℕ
  pub tool_calls : List ToolCall

-- `binary.BigEndian.PutUint64`
unfoldable pub put_uint64 : ℕ → List ℕ
put_uint64 n =
    (n / 2 ^ 56 % 256)
    ∷ (n / 2 ^ 48 % 256)
    ∷ (n / 2 ^ 40 % 256)
    ∷ (n / 2 ^ 32 % 256)
    ∷ (n / 2 ^ 24 % 256)
    ∷ (n / 2 ^ 16 % 256)
    ∷ (n / 2 ^ 8 % 256)
    ∷ (n % 256)
    ∷ []

-- `writeField`: what is fed to the hash.
unfoldable pub write_field : List ℕ → List ℕ
unfolding put_uint64
write_field s = put_uint64 (length s) ++ s

unfoldable pub write_calls : List ToolCall → List ℕ
unfolding write_field
write_calls [] = []
write_calls (c ∷ cs) =
    write_field c.id ++ (write_field c.name ++ (write_field c.arguments ++ write_calls cs))

-- `writeMessage`
unfoldable pub write_message : Message → List ℕ
unfolding write_field write_calls put_uint64
write_message m =
    write_field m.role
    ++ (write_field m.text
        ++ (write_field m.tool_call_id
            ++ (write_field m.name
                ++ (put_uint64 (length m.tool_calls) ++ write_calls m.tool_calls))))

unfoldable pub write_messages : List Message → List ℕ
unfolding write_message
write_messages [] = []
write_messages (m ∷ ms) = write_message m ++ write_messages ms

pub record Fingerprint : Type 0 where
  pub count : ℕ
  pub head : List ℕ
  pub tail : List ℕ

-- `Fingerprint`
unfoldable pub fingerprint : (List ℕ → List ℕ) → List Message → Fingerprint
unfolding write_messages
fingerprint sum [] = record { count = 0; head = []; tail = [] }
fingerprint sum (m ∷ ms) = record {
  count = length (m ∷ ms);
  head = take 16 (sum (write_message m));
  tail = take 16 (sum (write_messages (m ∷ ms)));
}
