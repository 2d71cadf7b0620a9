-- ===== src/Wire/Lines/Chunks.antt =====
-- backend/internal/wire/scanner.go: that how a stream is cut into writes does not show in its lines.
use songguo.Prelude.{
  ℕ, ◌+◌, ◌≤◌, ◌≡◌, ◌∙◌, refl, sym, ap, subst, false, List, [], ◌∷◌, ◌++◌, arith, length,
  length-append, All,
}
use songguo.Prelude.Member.{append_nil, append_assoc}
use songguo.Wire.Lines.{
  Scanner, Step, Segments, split, append_partial, end_line, end_lines, keep_rest, write, write_all,
  start, onto, finish,
}
use songguo.Wire.Lines.Text.{IsOpen, prefix, continued, split-open, split-IsOpen, split-append}

-- The pieces of a stream put together.
abbrev pub joined : List (List ℕ) → List ℕ
joined [] = []
joined (p ∷ ps) = p ++ joined ps

-- No line is longer than the limit, and what has not ended is not yet.
pub record Fits (max : ℕ) (s : Segments) : Type 0 where
  pub ended : All (λ (line : List ℕ). length line ≤ max) s.ended
  pub rest : length s.rest ≤ max

abbrev pub holding : List ℕ → Scanner
holding b = record { buf = b; overflow = false }

-- What a scanner should make of the segments of a text.
abbrev told : Segments → Step
told s = record { after = holding s.rest; lines = s.ended }

end_lines_fresh :
    (max : ℕ) (ls : List (List ℕ))
    → end_lines max (holding []) ls ≡ told (record { ended = ls; rest = [] })
unfolding end_lines end_line
end_lines_fresh max [] = refl
end_lines_fresh max (l ∷ ls) =
    ap (λ (s : Step). record { after = s.after; lines = l ∷ s.lines }) (end_lines_fresh max ls)

append_partial_fits :
    (max : ℕ) (b r : List ℕ)
    → length b + length r ≤ max
    → append_partial max (holding b) r ≡ holding (b ++ r)
unfolding append_partial
append_partial_fits max b r h = ground (arith, h)

keep_rest_fits :
    (max : ℕ) (b r : List ℕ)
    → length b + length r ≤ max
    → keep_rest max (holding b) r ≡ holding (b ++ r)
keep_rest_fits max b [] h = ap holding (sym (append_nil b))
keep_rest_fits max b (c ∷ r) h = append_partial_fits max b (c ∷ r) h

prefix_rest :
    (b r : List ℕ)
    → prefix b (record { ended = []; rest = r }) ≡ record { ended = []; rest = b ++ r }
prefix_rest [] r = refl
prefix_rest (c ∷ b) r = ap (onto c) (prefix_rest b r)

prefix_ended :
    (b l : List ℕ) (ls : List (List ℕ)) (r : List ℕ)
    → prefix b (record { ended = l ∷ ls; rest = r }) ≡ record { ended = (b ++ l) ∷ ls; rest = r }
prefix_ended [] l ls r = refl
prefix_ended (c ∷ b) l ls r = ap (onto c) (prefix_ended b l ls r)

-- The first line that ends.
end_line_fits :
    (max : ℕ) (b l : List ℕ)
    → length b + length l ≤ max
    → end_line max (holding b) l ≡ record { after = holding []; lines = (b ++ l) ∷ [] }
unfolding end_line
end_line_fits max [] l h = refl
end_line_fits max (c ∷ b) l h = ap finish (append_partial_fits max (c ∷ b) l h)

abbrev pub fed : ℕ → Scanner → Segments → Step
fed max s t =
    let ended = end_lines max s t.ended in
    record { after = keep_rest max ended.after t.rest; lines = ended.lines }

fed_lem :
    (max : ℕ) (b : List ℕ) (ended : List (List ℕ)) (rest : List ℕ)
    → Fits max (prefix b (record { ended = ended; rest = rest }))
    → fed max (holding b) (record { ended = ended; rest = rest })
      ≡ told (prefix b (record { ended = ended; rest = rest }))
unfolding end_lines
fed_lem max b [] rest h =
    let fits = subst (Fits max) (prefix_rest b rest) h in
    ap (λ (s : Scanner). record { after = s; lines = [] })
      (keep_rest_fits max b rest (omega (arith, fits.rest, length-append b rest)))
    ∙ ap told (sym (prefix_rest b rest))
fed_lem max b (l ∷ ls) rest h =
    let fits = subst (Fits max) (prefix_ended b l ls rest) h in
    let first = end_line_fits max b l (omega (arith, fits.ended.0, length-append b l)) in
    let after : Step → Step = λ s. record {
      after = keep_rest max (end_lines max s.after ls).after rest;
      lines = s.lines ++ (end_lines max s.after ls).lines;
    } in
    let more : Step → Step =
      λ s. record { after = keep_rest max s.after rest; lines = (b ++ l) ∷ s.lines } in
    ap after first
    ∙ ap more (end_lines_fresh max ls)
    ∙ ap (λ (s : Scanner). record { after = s; lines = (b ++ l) ∷ ls })
        (keep_rest_fits max [] rest (omega (arith, fits.rest)))
    ∙ ap told (sym (prefix_ended b l ls rest))

write_lem :
    (max : ℕ) (b p : List ℕ)
    → IsOpen b
    → Fits max (split (b ++ p))
    → write max (holding b) p ≡ told (split (b ++ p))
unfolding write
write_lem max b p o h =
    fed_lem max b (split p).ended (split p).rest (subst (Fits max) (split-open b p o) h)
    ∙ ap told (sym (split-open b p o))

All-left : (P : List ℕ → Type 0) (xs ys : List (List ℕ)) → All P (xs ++ ys) → All P xs
All-left P [] ys h = tt
All-left P (x ∷ xs) ys h = (h.0, All-left P xs ys h.1)

All-right : (P : List ℕ → Type 0) (xs ys : List (List ℕ)) → All P (xs ++ ys) → All P ys
All-right P [] ys h = h
All-right P (x ∷ xs) ys h = All-right P xs ys h.1

-- What has not ended is a part of the first line of what follows.
rest-Fits :
    (max : ℕ) (b : List ℕ) (ended : List (List ℕ)) (rest : List ℕ)
    → Fits max (prefix b (record { ended = ended; rest = rest }))
    → length b ≤ max
rest-Fits max b [] rest h =
    let fits = subst (Fits max) (prefix_rest b rest) h in
    omega (arith, fits.rest, length-append b rest)
rest-Fits max b (l ∷ ls) rest h =
    let fits = subst (Fits max) (prefix_ended b l ls rest) h in
    omega (arith, fits.ended.0, length-append b l)

continued-Fits :
    (max : ℕ) (s : Segments) (q : List ℕ)
    → IsOpen s.rest
    → Fits max (continued s q)
    → Fits max s × Fits max (split (s.rest ++ q))
continued-Fits max s q o h =
    let later : Fits max (split (s.rest ++ q)) = record {
      ended = All-right (λ line. length line ≤ max) s.ended (split (s.rest ++ q)).ended h.ended;
      rest = h.rest;
    } in
    (
      record {
        ended = All-left (λ line. length line ≤ max) s.ended (split (s.rest ++ q)).ended h.ended;
        rest =
            rest-Fits max s.rest (split q).ended (split q).rest
              (subst (Fits max) (split-open s.rest q o) later);
      },
      later,
    )

pub split-IsOpen_self : (b : List ℕ) → IsOpen b → split (b ++ []) ≡ record { ended = []; rest = b }
unfolding split
split-IsOpen_self b o =
    split-open b [] o
    ∙ prefix_rest b []
    ∙ ap (λ (r : List ℕ). record { ended = []; rest = r }) (append_nil b)

write_all_from :
    (max : ℕ) (b : List ℕ) (ps : List (List ℕ))
    → IsOpen b
    → Fits max (split (b ++ joined ps))
    → write_all max (holding b) ps ≡ told (split (b ++ joined ps))
unfolding write_all
write_all_from max b [] o h = ap told (sym (split-IsOpen_self b o))
write_all_from max b (p ∷ ps) o h =
    let whole = ap split (sym (append_assoc b p (joined ps))) ∙ split-append (b ++ p) (joined ps) in
    let now = split (b ++ p) in
    let open_rest = split-IsOpen (b ++ p) in
    let fits = continued-Fits max now (joined ps) open_rest (subst (Fits max) whole h) in
    let more : Step → Step = λ s. record {
      after = (write_all max s.after ps).after;
      lines = s.lines ++ (write_all max s.after ps).lines;
    } in
    ap more (write_lem max b p o fits.0)
    ∙ ap (λ (s : Step). record { after = s.after; lines = now.ended ++ s.lines })
        (write_all_from max now.rest ps open_rest fits.1)
    ∙ ap told (sym whole)

-- Where no line of a stream is longer than the limit, the lines that are handed on are the lines of
-- the stream, however it was cut into writes, and what has not ended at its end is kept.
pub write_all_lem :
    (max : ℕ) (ps : List (List ℕ))
    → Fits max (split (joined ps))
    → write_all max start ps ≡ record {
      after = record { buf = (split (joined ps)).rest; overflow = false };
      lines = (split (joined ps)).ended;
    }
write_all_lem max ps h = write_all_from max [] ps tt h
