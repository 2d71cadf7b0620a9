-- ===== src/Wire/Lines/Limits.antt =====
-- backend/internal/wire/scanner.go: what the limit on a line does.
use songguo.Prelude.{
  ℕ, ◌+◌, ◌≤◌, ◌<◌, ◌≡◌, ◌∙◌, refl, sym, ap, true, List, [], ◌∷◌, ◌++◌, arith, length,
  length-append,
}
use songguo.Wire.Lines.{
  Scanner, Step, Segments, split, append_partial, end_line, end_lines, keep_rest, write, write_all,
  start, newline, finish,
}
use songguo.Prelude.Member.{append_nil}
use songguo.Wire.Lines.Text.{IsOpen, split-line}
use songguo.Wire.Lines.Chunks.{holding, fed, split-IsOpen_self}

-- What is kept of a line that has not ended stays within the limit.
abbrev pub IsWithin : ℕ → Scanner → Type 0
IsWithin max s = length s.buf ≤ max

append_partial-IsWithin :
    (max : ℕ) (s : Scanner) (b : List ℕ) → IsWithin max s → IsWithin max (append_partial max s b)
unfolding append_partial
append_partial-IsWithin max s b h = ground (arith, h, length-append s.buf b)

finish-IsWithin : (max : ℕ) (s : Scanner) → IsWithin max s → IsWithin max (finish s).after
finish-IsWithin max s h = ground (arith, h)

end_line-IsWithin :
    (max : ℕ) (s : Scanner) (l : List ℕ) → IsWithin max s → IsWithin max (end_line max s l).after
unfolding end_line
end_line-IsWithin max s l h =
    ground
      (arith, h, finish-IsWithin max (append_partial max s l) (append_partial-IsWithin max s l h))

end_lines-IsWithin :
    (max : ℕ) (s : Scanner) (ls : List (List ℕ))
    → IsWithin max s
    → IsWithin max (end_lines max s ls).after
unfolding end_lines
end_lines-IsWithin max s [] h = h
end_lines-IsWithin max s (l ∷ ls) h =
    end_lines-IsWithin max (end_line max s l).after ls (end_line-IsWithin max s l h)

keep_rest-IsWithin :
    (max : ℕ) (s : Scanner) (r : List ℕ) → IsWithin max s → IsWithin max (keep_rest max s r)
keep_rest-IsWithin max s [] h = h
keep_rest-IsWithin max s (c ∷ r) h = append_partial-IsWithin max s (c ∷ r) h

write-IsWithin :
    (max : ℕ) (s : Scanner) (p : List ℕ) → IsWithin max s → IsWithin max (write max s p).after
unfolding write
write-IsWithin max s p h =
    keep_rest-IsWithin max (end_lines max s (split p).ended).after (split p).rest
      (end_lines-IsWithin max s (split p).ended h)

-- Whatever arrives and however it is cut, no more of a line than the limit is kept between writes.
pub write_all-IsWithin :
    (max : ℕ) (ps : List (List ℕ)) → length (write_all max start ps).after.buf ≤ max
unfolding write_all
write_all-IsWithin max ps = from start ps (omega arith)
  where
    from :
        (s : Scanner) (qs : List (List ℕ))
        → IsWithin max s
        → IsWithin max (write_all max s qs).after
    from s [] h = h
    from s (q ∷ qs) h = from (write max s q).after qs (write-IsWithin max s q h)

-- While the rest of an overlong line is thrown away.
abbrev skipping : Scanner
skipping = record { buf = []; overflow = true }

over :
    (max c : ℕ) (b l : List ℕ)
    → max < length (c ∷ b) + length l
    → append_partial max (holding (c ∷ b)) l ≡ skipping
unfolding append_partial
over max c b l h = ground (arith, h)

abbrev line_then : List ℕ → Segments → Segments
line_then l s = record { ended = l ∷ s.ended; rest = s.rest }

end_line_over :
    (max c : ℕ) (b l : List ℕ)
    → max < length (c ∷ b) + length l
    → end_line max (holding (c ∷ b)) l ≡ record { after = skipping; lines = [] }
unfolding end_line
end_line_over max c b l h = ap finish (over max c b l h)

fed_over :
    (max c : ℕ) (b l : List ℕ) (s : Segments)
    → max < length (c ∷ b) + length l
    → fed max (holding (c ∷ b)) (line_then l s) ≡ fed max skipping s
unfolding end_lines
fed_over max c b l s h =
    let more : Step → Step = λ t. record {
      after = keep_rest max (end_lines max t.after s.ended).after s.rest;
      lines = t.lines ++ (end_lines max t.after s.ended).lines;
    } in
    ap more (end_line_over max c b l h)

-- The newline that ends the skipping, and a line from the start.
fed-skipping :
    (max : ℕ) (l : List ℕ) (s : Segments) → fed max skipping (line_then l s) ≡ fed max start s
unfolding end_lines end_line
fed-skipping max l s = refl

fed_start :
    (max : ℕ) (l : List ℕ) (s : Segments)
    → (fed max start (line_then l s)).lines ≡ l ∷ (fed max start s).lines
unfolding end_lines end_line
fed_start max l s = refl

write_over :
    (max c : ℕ) (b l : List ℕ)
    → length (c ∷ b) ≤ max
    → max < length (c ∷ b) + length l
    → IsOpen l
    → write max (holding (c ∷ b)) l ≡ record { after = skipping; lines = [] }
unfolding write end_lines
write_over max c b [] h k o = absurd (omega (arith, h, k))
write_over max c b (a ∷ l) h k o =
    let alone = ap split (sym (append_nil (a ∷ l))) ∙ split-IsOpen_self (a ∷ l) o in
    ap (fed max (holding (c ∷ b))) alone
    ∙ ap (λ (s : Scanner). record { after = s; lines = [] }) (over max c b (a ∷ l) k)

-- A line that passes the limit with its last bytes, just before its newline, takes the next line with
-- it, whatever that is: all that is handed on is what follows the two. If the newline comes with the
-- next write, the next line is handed on.
pub write_swallows :
    (max c : ℕ) (b l next rest : List ℕ)
    → length (c ∷ b) ≤ max
    → max < length (c ∷ b) + length l
    → IsOpen l
    → IsOpen next
    → (write max (holding (c ∷ b)) (l ++ newline ∷ (next ++ newline ∷ rest)) ≡ write max start rest)
      × ((write_all max (holding (c ∷ b)) (l ∷ (newline ∷ (next ++ newline ∷ rest)) ∷ [])).lines
          ≡ next ∷ (write max start rest).lines)
unfolding write write_all split
write_swallows max c b l next rest w h o k =
    let tail = split-line next rest k in
    let both = split-line l (next ++ newline ∷ rest) o ∙ ap (line_then l) tail in
    let second = λ (s : Scanner). (write max s (newline ∷ (next ++ newline ∷ rest))).lines ++ [] in
    (
      ap (fed max (holding (c ∷ b))) both
          ∙ fed_over max c b l (line_then next (split rest)) h
          ∙ fed-skipping max next (split rest),
      ap (λ (s : Step). s.lines ++ second s.after) (write_over max c b l w h o)
          ∙ append_nil (write max skipping (newline ∷ (next ++ newline ∷ rest))).lines
          ∙ ap (λ (s : Step). s.lines) (fed-skipping max [] (split (next ++ newline ∷ rest)))
          ∙ ap (λ (s : Segments). (fed max start s).lines) tail
          ∙ fed_start max next (split rest),
    )
