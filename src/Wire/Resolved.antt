-- ===== src/Wire/Resolved.antt =====
-- backend/internal/wire/wire.go: that Resolve answers with the best match of all.
use songguo.Prelude.{
  ◌≤◌, ◌≡◌, ◌⊎◌, refl, subst, true, false, Option, none, some, List, [], ◌∷◌, String, arith,
  Option-cases, inl, inr,
}
use Prim.Native.String
use songguo.Prelude.{is_before}
use songguo.Prelude.Map.{Map, lookup}
use songguo.Prelude.Member.{Mem, here, there}
use songguo.Wire.{
  Wire, Match, beats, has_suffix, try_suffixes, try_wires, wire_of, normalize_path, resolve,
}
use songguo.Wire.Longest.{IsBest, same-IsBest, Ends, ending, try_suffixes-IsBest}

-- A wire that is enabled and registered, with one of its suffixes that ends the path.
pub data Matches (registry : Map Wire) (p : String) (enabled : List String) : Match → Type 0 where
  matching :
      (name : String) (w : Wire) (suf : String)
      → Mem name enabled
      → lookup name registry ≡ some w
      → Mem suf w.suffixes
      → has_suffix p suf ≡ true
      → Matches registry p enabled (record { wire = w; length = String.len suf })

module _ (registry : Map Wire) (p : String) where
  one_more :
      (name : String) (names : List String) (m : Match)
      → Matches registry p names m
      → Matches registry p (name ∷ names) m
  one_more name names _ (matching n w suf k e s h) = matching n w suf (there name names k) e s h

  -- A match is one of the first name's wire, if it is registered, or of the other names.
  matches-cases :
      (name : String) (names : List String) (m : Match)
      → Matches registry p (name ∷ names) m
      → ((w : Wire) × (lookup name registry ≡ some w) × Ends p w w.suffixes m)
        ⊎ Matches registry p names m
  matches-cases name names _ (matching _ w suf (here _) e s h) = inl (w, e, ending suf s h)
  matches-cases name names _ (matching n w suf (there _ _ k) e s h) = inr (matching n w suf k e s h)

  of_first :
      (name : String) (names : List String) (w : Wire) (m : Match)
      → lookup name registry ≡ some w
      → Ends p w w.suffixes m
      → Matches registry p (name ∷ names) m
  of_first name names w _ e (ending suf s h) = matching name w suf (here names) e s h

  no_names : (m : Match) → Matches registry p [] m → ⊥
  no_names _ (matching n w suf k e s h) = elim k [ ]

  same_wire : (v w : Wire) (o : Option Wire) → o ≡ some v → o ≡ some w → v ≡ w
  same_wire v w o e f = cc (e, f)

  try_wires-IsBest :
      (P : Match → Type 0) (names : List String) (best : Option Match)
      → IsBest P best
      → IsBest (λ m. P m ⊎ Matches registry p names m) (try_wires registry p names best)
  unfolding try_wires
  try_wires-IsBest P [] best h = same-IsBest P _ best (λ m k. inl k) only h
    where
      only : (m : Match) → P m ⊎ Matches registry p [] m → P m
      only m (inl k) = k
      only m (inr k) = absurd (no_names m k)
  try_wires-IsBest P (name ∷ names) best h = elim (Option-cases (lookup name registry)) [
    | inl e ↦ rw e (
        same-IsBest (λ m. P m ⊎ Matches registry p names m) _ _ more (fewer e)
          (try_wires-IsBest P names best h))
    | inr (w, e) ↦ rw e (
        same-IsBest (λ m. (P m ⊎ Ends p w w.suffixes m) ⊎ Matches registry p names m) _ _
          (joined w e) (parted w e)
          (try_wires-IsBest (λ m. P m ⊎ Ends p w w.suffixes m) names
            (try_suffixes p w w.suffixes best) (try_suffixes-IsBest p w P w.suffixes best h)))
  ]
    where
      more :
          (m : Match) → P m ⊎ Matches registry p names m → P m ⊎ Matches registry p (name ∷ names) m
      more m (inl k) = inl k
      more m (inr k) = inr (one_more name names m k)

      fewer :
          lookup name registry ≡ none
          → (m : Match) → P m ⊎ Matches registry p (name ∷ names) m
          → P m ⊎ Matches registry p names m
      fewer e m (inl k) = inl k
      fewer e m (inr k) = elim (matches-cases name names m k) [
        | inl f ↦ absurd (ground (arith, e, f.1))
        | inr r ↦ inr r
      ]

      joined :
          (w : Wire)
          → lookup name registry ≡ some w
          → (m : Match) → (P m ⊎ Ends p w w.suffixes m) ⊎ Matches registry p names m
          → P m ⊎ Matches registry p (name ∷ names) m
      joined w e m (inl (inl k)) = inl k
      joined w e m (inl (inr s)) = inr (of_first name names w m e s)
      joined w e m (inr k) = inr (one_more name names m k)

      parted :
          (w : Wire)
          → lookup name registry ≡ some w
          → (m : Match) → P m ⊎ Matches registry p (name ∷ names) m
          → (P m ⊎ Ends p w w.suffixes m) ⊎ Matches registry p names m
      parted w e m (inl k) = inl (inl k)
      parted w e m (inr k) = elim (matches-cases name names m k) [
        | inl f ↦ inl (
            inr (
              subst (λ v. Ends p v v.suffixes m) (same_wire f.0 w (lookup name registry) f.1 e)
                f.2))
        | inr r ↦ inr r
      ]

-- Of the matches that satisfy `P`, the longest, and the first by name among those.
abbrev pub IsLongest : (Match → Type 0) → Option Match → Type 0
IsLongest P none = (m : Match) → P m → ⊥
IsLongest P (some b) =
    P b
    × ((m : Match)
        → P m
        → (m.length ≤ b.length) × (m.length ≡ b.length → is_before m.wire.name b.wire.name ≡ false))

unbeaten :
    (m b : Match)
    → beats m b ≡ false
    → (m.length ≤ b.length) × (m.length ≡ b.length → is_before m.wire.name b.wire.name ≡ false)
unbeaten m b h = (ground (arith, h), λ e. ground (arith, h, e))

best-IsLongest : (P : Match → Type 0) (best : Option Match) → IsBest P best → IsLongest P best
best-IsLongest P none h = h
best-IsLongest P (some b) h = (h.0, λ m k. unbeaten m b (h.1 m k))

-- The wire that serves a path is that of the best match, in whatever order the names are enabled: no
-- wire that is enabled and registered ends the path with a longer suffix, nor with one as long and an
-- earlier name; and there is no wire only if none matches.
pub resolve-IsLongest :
    (registry : Map Wire) (lower : String → String) (enabled : List String) (path : String)
    → (best : Option Match) × (resolve registry lower enabled path ≡ wire_of best)
      × IsLongest (Matches registry (normalize_path lower path) enabled) best
unfolding resolve
resolve-IsLongest registry lower enabled path =
    let p = normalize_path lower path in
    let best = try_wires registry p enabled none in
    (
      best,
      refl,
      best-IsLongest (Matches registry p enabled) best (
          same-IsBest (λ m. ⊥ ⊎ Matches registry p enabled m) _ best only (λ m k. inr k)
            (try_wires-IsBest registry p (λ m. ⊥) enabled none (λ m k. k))),
    )
  where
    only :
        (m : Match)
        → ⊥ ⊎ Matches registry (normalize_path lower path) enabled m
        → Matches registry (normalize_path lower path) enabled m
    only m (inl k) = absurd k
    only m (inr k) = k
