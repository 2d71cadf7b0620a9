-- ===== src/Cover.antt =====
-- backend/internal/store/messagecover.go: the captured bodies that hold a session's conversation. Byte
-- strings are text, and instants are in milliseconds.
pub mod Order
pub mod Sources
pub mod Runs
pub mod Rounds
pub mod Complete
pub mod Tests
use songguo.Prelude.{
  ℕ, Bool, true, false, ◌&&◌, ◌||◌, not, Option, none, some, List, [], ◌∷◌, ◌++◌, String,
  if◌then◌else◌, str_eq, ltb, ◌==◌, is_before,
}
use songguo.Prelude.Int.{ℤ, pos, ltb_ℤ, eqb_ℤ}
use songguo.Prelude.Map.{Map, lookup, insert}
use songguo.Prelude.Sort.{sort_by}

-- `callShape`
pub record Shape : Type 0 where
  pub call_id : String
  pub agent_id : String
  pub ts : ℕ
  pub count : ℤ
  pub head : String
  pub tail : String
  pub has_raw : Bool

-- `known`
abbrev pub is_known : Shape → Bool
is_known c = ltb_ℤ (pos 0) c.count && not (str_eq c.head "")

-- `extends`
unfoldable pub extends : Shape → Shape → Bool
extends prev cur =
    is_known prev
    && is_known cur
    && str_eq prev.head cur.head
    && not (ltb_ℤ cur.count prev.count)
    && not (eqb_ℤ cur.count prev.count && not (str_eq prev.tail cur.tail))

-- `run`
pub record Run : Type 0 where
  pub last : Shape
  pub best : Option Shape

-- `emit`, for the best of a run.
abbrev pub emit : Option Shape → List Shape
emit none = []
emit (some c) = c ∷ []

-- `closeAll`
unfoldable pub close_all : Map Run → List Shape
close_all [] = []
close_all ((head, r) ∷ open_runs) = emit r.best ++ close_all open_runs

-- A run after one more member.
abbrev pub joined : Option Shape → Shape → Run
joined best cur = record { last = cur; best = if cur.has_raw then some cur else best }

-- What one round of the loop emits, and the runs that it leaves open.
pub record Round : Type 0 where
  pub emitted : List Shape
  pub open_runs : Map Run

-- The run of the request's head goes on, or ends and another begins.
abbrev pub known_round : Map Run → Shape → Option Run → Round
known_round open_runs cur none = record {
  emitted = [];
  open_runs = insert cur.head (joined none cur) open_runs;
}
known_round open_runs cur (some r) =
    if extends r.last cur
    then record { emitted = []; open_runs = insert cur.head (joined r.best cur) open_runs }
    else record { emitted = emit r.best; open_runs = insert cur.head (joined none cur) open_runs }

unfoldable pub round : Map Run → Shape → Round
round open_runs cur =
    if is_known cur
    then known_round open_runs cur (lookup cur.head open_runs)
    else record { emitted = if cur.has_raw then cur ∷ [] else []; open_runs = open_runs }

-- The loop from one request on, where `agent` is that of the request before.
unfoldable pub walk : String → Map Run → List Shape → List Shape
unfolding close_all round
walk agent open_runs [] = close_all open_runs
walk agent open_runs (cur ∷ shapes) =
    let is_same = str_eq agent cur.agent_id in
    let r = round (if is_same then open_runs else []) cur in
    (if is_same then [] else close_all open_runs)
    ++ (r.emitted ++ walk cur.agent_id r.open_runs shapes)

-- The whole walk; before the first request nothing is open.
abbrev pub walked : List Shape → List Shape
walked [] = []
walked (cur ∷ shapes) = walk cur.agent_id [] (cur ∷ shapes)

-- By time, then by id.
abbrev pub is_earlier : Shape → Shape → Bool
is_earlier a b = if a.ts == b.ts then is_before a.call_id b.call_id else ltb a.ts b.ts

-- `messageCover`. A `CoveringRequest` is a projection of its shape.
unfoldable pub message_cover : List Shape → List Shape
unfolding walk
message_cover shapes = sort_by is_earlier (walked shapes)
