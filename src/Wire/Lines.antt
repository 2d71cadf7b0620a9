-- ===== src/Wire/Lines.antt =====
-- backend/internal/wire/scanner.go: the lines of a stream that arrives in pieces. `maxLineBytes` is an
-- argument, and bytes are numbers.
pub mod Text
pub mod Chunks
pub mod Limits
pub mod Tests
use songguo.Prelude.{
  ℕ, ◌+◌, Bool, true, false, List, [], ◌∷◌, ◌++◌, length, if◌then◌else◌, ltb, ◌==◌,
}

-- `lineScanner`, less its callbacks: a line is handed to `onLine` by being returned.
pub record Scanner : Type 0 where
  pub buf : List ℕ
  pub overflow : Bool

abbrev pub start : Scanner
start = record { buf = []; overflow = false }

-- What a step leaves, and the lines that it hands on.
pub record Step : Type 0 where
  pub after : Scanner
  pub lines : List (List ℕ)

abbrev pub newline : ℕ
newline = 10

-- `appendPartial`
unfoldable pub append_partial : ℕ → Scanner → List ℕ → Scanner
append_partial max s b =
    if s.overflow
    then s
    else if ltb max (length s.buf + length b)
    then record { buf = []; overflow = true }
    else record { buf = s.buf ++ b; overflow = false }

-- A line that was begun before and is now complete.
abbrev pub finish : Scanner → Step
finish s =
    if s.overflow
    then record { after = s; lines = [] }
    else record { after = record { buf = []; overflow = false }; lines = s.buf ∷ [] }

abbrev pub is_empty : List ℕ → Bool
is_empty [] = true
is_empty (c ∷ cs) = false

-- One round of the loop of `Write` that finds a newline, with what stands before it.
unfoldable pub end_line : ℕ → Scanner → List ℕ → Step
unfolding append_partial
end_line max s line =
    if s.overflow
    then record { after = record { buf = []; overflow = false }; lines = [] }
    else if is_empty s.buf
    then record { after = s; lines = line ∷ [] }
    else finish (append_partial max s line)

-- What the rounds of the loop take off a piece, each with `IndexByte`: the segments that a newline
-- ends, and the rest.
pub record Segments : Type 0 where
  pub ended : List (List ℕ)
  pub rest : List ℕ

abbrev pub onto : ℕ → Segments → Segments
onto c s = elim s.ended [
  | [] ↦ record { ended = []; rest = c ∷ s.rest }
  | line ∷ more ↦ record { ended = (c ∷ line) ∷ more; rest = s.rest }
]

unfoldable pub split : List ℕ → Segments
split [] = record { ended = []; rest = [] }
split (c ∷ p) =
    let s = split p in
    if c == newline then record { ended = [] ∷ s.ended; rest = s.rest } else onto c s

-- The rounds that find a newline.
unfoldable pub end_lines : ℕ → Scanner → List (List ℕ) → Step
unfolding end_line
end_lines max s [] = record { after = s; lines = [] }
end_lines max s (line ∷ more) =
    let first = end_line max s line in
    let rest = end_lines max first.after more in
    record { after = rest.after; lines = first.lines ++ rest.lines }

-- The last round, if anything is left.
abbrev pub keep_rest : ℕ → Scanner → List ℕ → Scanner
keep_rest max s rest = if is_empty rest then s else append_partial max s rest

-- `Write`
unfoldable pub write : ℕ → Scanner → List ℕ → Step
unfolding split end_lines append_partial
write max s p =
    let segments = split p in
    let ended = end_lines max s segments.ended in
    record { after = keep_rest max ended.after segments.rest; lines = ended.lines }

-- A stream that is written piece by piece.
unfoldable pub write_all : ℕ → Scanner → List (List ℕ) → Step
unfolding write
write_all max s [] = record { after = s; lines = [] }
write_all max s (p ∷ ps) =
    let first = write max s p in
    let rest = write_all max first.after ps in
    record { after = rest.after; lines = first.lines ++ rest.lines }
