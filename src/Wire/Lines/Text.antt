-- ===== src/Wire/Lines/Text.antt =====
-- backend/internal/wire/scanner.go: the lines of a whole text.
use songguo.Prelude.{ℕ, ◌≡◌, ◌∙◌, refl, ap, false, List, [], ◌∷◌, ◌++◌, ◌==◌, Bool-cases, inl, inr}
use songguo.Wire.Lines.{Segments, newline, onto, split}

-- A text without a newline.
abbrev pub IsOpen : List ℕ → Type 0
IsOpen [] = Unit
IsOpen (c ∷ cs) = ((c == newline) ≡ false) × IsOpen cs

-- Some text before the segments of another.
abbrev pub prefix : List ℕ → Segments → Segments
prefix [] s = s
prefix (c ∷ cs) s = onto c (prefix cs s)

pub split-open : (b p : List ℕ) → IsOpen b → split (b ++ p) ≡ prefix b (split p)
unfolding split
split-open [] p h = refl
split-open (c ∷ b) p h = rw (h.0) (ap (onto c) (split-open b p h.1))

onto-IsOpen :
    (c : ℕ) (ended : List (List ℕ)) (rest : List ℕ)
    → (c == newline) ≡ false
    → IsOpen rest
    → IsOpen (onto c (record { ended = ended; rest = rest })).rest
onto-IsOpen c [] rest e h = (e, h)
onto-IsOpen c (line ∷ more) rest e h = h

pub split-IsOpen : (p : List ℕ) → IsOpen (split p).rest
unfolding split
split-IsOpen [] = tt
split-IsOpen (c ∷ p) = elim (Bool-cases (c == newline)) [
  | inl e ↦ rw e (split-IsOpen p)
  | inr n ↦ rw n (onto-IsOpen c (split p).ended (split p).rest n (split-IsOpen p))
]

-- The segments of a text that goes on after some segments.
abbrev pub continued : Segments → List ℕ → Segments
continued s q = record {
  ended = s.ended ++ (split (s.rest ++ q)).ended;
  rest = (split (s.rest ++ q)).rest;
}

onto-continued :
    (c : ℕ) (ended : List (List ℕ)) (rest q : List ℕ)
    → (c == newline) ≡ false
    → onto c (continued (record { ended = ended; rest = rest }) q)
      ≡ continued (onto c (record { ended = ended; rest = rest })) q
unfolding split
onto-continued c [] rest q e = rw e refl
onto-continued c (line ∷ more) rest q e = refl

-- The rest of the first of two texts goes on in the second.
pub split-append : (p q : List ℕ) → split (p ++ q) ≡ continued (split p) q
unfolding split
split-append [] q = refl
split-append (c ∷ p) q = elim (Bool-cases (c == newline)) [
  | inl e ↦
      rw e
        (ap (λ (s : Segments). record { ended = [] ∷ s.ended; rest = s.rest }) (split-append p q))
  | inr n ↦
      rw n (ap (onto c) (split-append p q) ∙ onto-continued c (split p).ended (split p).rest q n)
]

-- A line that ends, before more text.
pub split-line :
    (l q : List ℕ)
    → IsOpen l
    → split (l ++ newline ∷ q) ≡ record { ended = l ∷ (split q).ended; rest = (split q).rest }
unfolding split
split-line l q o = split-open l (newline ∷ q) o ∙ before l
  where
    before :
        (b : List ℕ)
        → prefix b (split (newline ∷ q))
          ≡ record { ended = b ∷ (split q).ended; rest = (split q).rest }
    before [] = refl
    before (c ∷ b) = ap (onto c) (before b)
