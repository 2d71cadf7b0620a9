-- ===== src/Wire/Lines/Tests.antt =====
-- A stream of two lines, whole and in pieces, with a limit of four bytes.
use songguo.Prelude.{ℕ, ◌≡◌, refl, List, [], ◌∷◌, ◌++◌, arith, false}
use songguo.Wire.Lines.{split, start, write, write_all, newline}
use songguo.Wire.Lines.Chunks.{Fits, joined, holding, write_all_lem}
use songguo.Wire.Lines.Limits.{write_swallows}

abbrev pieces : List (List ℕ)
pieces = (1 ∷ []) ∷ (2 ∷ newline ∷ 3 ∷ []) ∷ (4 ∷ 5 ∷ newline ∷ 6 ∷ []) ∷ []

pieces-Fits : Fits 4 (split (joined pieces))
unfolding split
pieces-Fits = record { ended = (omega arith, (omega arith, tt)); rest = omega arith }

two_lines : (write_all 4 start pieces).lines ≡ (1 ∷ 2 ∷ []) ∷ (3 ∷ 4 ∷ 5 ∷ []) ∷ []
unfolding write_all
two_lines = refl

write_all_lem_example : write_all 4 start pieces ≡ record {
  after = record { buf = (split (joined pieces)).rest; overflow = false };
  lines = (split (joined pieces)).ended;
}
write_all_lem_example = write_all_lem 4 pieces pieces-Fits

write_swallows_example :
    (write 4 (holding (1 ∷ 2 ∷ [])) ((3 ∷ 4 ∷ 5 ∷ []) ++ newline ∷ ((6 ∷ []) ++ newline ∷ []))
      ≡ write 4 start [])
    × ((write_all 4
          (holding (1 ∷ 2 ∷ []))
          ((3 ∷ 4 ∷ 5 ∷ []) ∷ (newline ∷ ((6 ∷ []) ++ newline ∷ [])) ∷ [])).lines
        ≡ (6 ∷ []) ∷ (write 4 start []).lines)
write_swallows_example =
    write_swallows 4 1 (2 ∷ []) (3 ∷ 4 ∷ 5 ∷ []) (6 ∷ []) [] (omega arith) (omega arith)
      (refl, (refl, (refl, tt))) (refl, tt)
