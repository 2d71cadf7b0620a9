-- ===== src/Router/Affinity/Bounds.antt =====
-- backend/internal/router/affinity.go: the map of pins stays bounded, and loses its oldest pin first.
use songguo.Prelude.{
  ℕ, suc, ◌+◌, ◌-◌, ◌≤◌, ◌<◌, ◌≡◌, refl, ◌≢◌, Bool, true, false, ◌||◌, Option, none, some, List, [],
  ◌∷◌, String, arith, ltb, leb, if◌then◌else◌, length, str_eq, eq_iff, All, Bool-cases, inl, inr,
  subst, sym, leb→le,
}
use songguo.Prelude.Map.{
  Map, is_missing, erase, IsUnique, insert-IsUnique, erase-IsUnique, keep_values-IsUnique,
  length-insert-le, length-erase-lt, length-keep_values-le,
}
use songguo.Prelude.Sort.{sort_by, All-sort_by, All-of-sort_by, length-sort_by, sort_by-IsSorted}
use songguo.Router.Affinity.{Affinity, Entry, sweep, get, drop_oldest, older, evict, pin, set}

-- No session has two pins, and there are at most `max` of them.
pub record IsSound (a : Affinity) : Type 0 where
  pub unique : IsUnique a.entries
  pub bounded : length a.entries ≤ a.max

sweep-IsSound : (a : Affinity) (now : ℕ) → IsSound a → IsSound (sweep a now)
unfolding sweep
sweep-IsSound a now v = elim (Bool-cases (ltb now a.next_sweep)) [
  | inl e ↦ rw e v
  | inr e ↦ rw e (record {
    unique = keep_values-IsUnique _ a.entries v.unique;
    bounded = omega (
      arith,
      length-keep_values-le (λ x. songguo.Prelude.not (leb (x.seen + a.ttl) now)) a.entries,
      v.bounded,
    );
  })
]

-- A read keeps the map sound, whether or not it sweeps.
pub get-IsSound : (a : Affinity) (key : String) (now : ℕ) → IsSound a → IsSound (get a key now).0
unfolding get
get-IsSound a key now v = elim (Bool-cases (str_eq key "")) [
  | inl e ↦ rw e v
  | inr e ↦ rw e (sweep-IsSound a now v)
]

is_missing_self : (k : String) (e : Entry) (m : Map Entry) → is_missing k ((k, e) ∷ m) ≡ false
is_missing_self k e m = ground (arith, eq_iff k k)

present-cons :
    (x : String × Entry) (m l : Map Entry)
    → All (λ y. is_missing y.0 m ≡ false) l
    → All (λ y. is_missing y.0 (x ∷ m) ≡ false) l
present-cons x m [] h = tt
present-cons (k, e) m ((j, w) ∷ l) h = (ground arith, present-cons (k, e) m l h.1)

present : (m : Map Entry) → All (λ y. is_missing y.0 m ≡ false) m
present [] = tt
present ((k, e) ∷ m) = (is_missing_self k e m, present-cons (k, e) m m (present m))

older_asym : (a b : String × Entry) → older a b ≡ true → older b a ≡ false
older_asym a b h = ground arith

not_older_trans :
    (a b c : String × Entry) → older b a ≡ false → older c b ≡ false → older c a ≡ false
not_older_trans a b c h k = ground arith

abbrev pub OldestOf : Map Entry → String × Entry → Type 0
OldestOf m x = (is_missing x.0 m ≡ false) × All (λ y. older y x ≡ false) m

-- The head of the sorted pins is a pin, and none is older.
sorted_head :
    (m : Map Entry)
    → 0 < length m
    → (x : String × Entry) × (rest : Map Entry) × (sort_by older m ≡ x ∷ rest) × OldestOf m x
sorted_head m h =
    split (sort_by older m) refl (length-sort_by older m) (All-sort_by older _ m (present m))
      (sort_by-IsSorted older older_asym not_older_trans m)
  where
    split :
        (l : Map Entry)
        → sort_by older m ≡ l
        → length l ≡ length m
        → All (λ y. is_missing y.0 m ≡ false) l
        → songguo.Prelude.Sort.IsSorted older l
        → (x : String × Entry) × (rest : Map Entry) × (sort_by older m ≡ x ∷ rest) × OldestOf m x
    split [] e n p s = absurd (omega arith)
    split (x ∷ rest) e n p s = (
      x,
      rest,
      e,
      (
        p.0,
        All-of-sort_by older _ m (subst (All (λ y. older y x ≡ false)) (sym e) (ground arith, s.0)),
      ),
    )

-- One pin too many costs exactly the oldest one: a pin that no other pin is older than.
pub evict_oldest :
    (a : Affinity)
    → length a.entries ≡ suc a.max
    → (x : String × Entry) × OldestOf a.entries x
      × (evict a ≡ record a { entries = erase x.0 a.entries })
unfolding evict drop_oldest
evict_oldest a h =
    let (x, rest, e, o) = sorted_head a.entries (omega arith) in
    let over : leb (length a.entries) a.max ≡ false = ground arith in
    let one : length a.entries - a.max ≡ 1 = omega arith in (x, o, rw (over, one, e) refl)

evict-IsSound :
    (a : Affinity) → IsUnique a.entries → length a.entries ≤ suc a.max → IsSound (evict a)
unfolding evict
evict-IsSound a u h = elim (Bool-cases (leb (length a.entries) a.max)) [
  | inl e ↦ rw e (record { unique = u; bounded = leb→le _ _ e })
  | inr e ↦ full (evict_oldest a (ground arith))
]
  where
    full :
        (x : String × Entry) × OldestOf a.entries x
          × (evict a ≡ record a { entries = erase x.0 a.entries })
        → IsSound (evict a)
    full (x, o, p) = rw p (record {
      unique = erase-IsUnique x.0 a.entries u;
      bounded = omega (arith, length-erase-lt x.0 a.entries o.0);
    })

-- However many sessions are pinned, the map of pins never grows past its cap.
pub set-IsSound :
    (a : Affinity) (key vendor : String) (now : ℕ) → IsSound a → IsSound (set a key vendor now)
unfolding set pin
set-IsSound a key vendor now v = elim (Bool-cases (str_eq key "" || str_eq vendor "")) [
  | inl e ↦ rw e v
  | inr e ↦
      let w = sweep-IsSound a now v in
      rw e (
        evict-IsSound _ (insert-IsUnique key _ (sweep a now).entries w.unique) (
          omega (
            arith,
            length-insert-le key (record { vendor = vendor; seen = now }) (sweep a now).entries,
            w.bounded,
          )))
]
