-- ===== src/Catalog/Reached.antt =====
-- backend/internal/catalog/catalog.go: which windows contain an instant.
use songguo.Prelude.{
  ℕ, ◌+◌, ◌-◌, ◌*◌, ◌%◌, ◌≤◌, ◌≡◌, ◌↔◌, true, false, Option, none, some, List, [], ◌∷◌, String,
  arith, str_eq, Option-cases, subst, inl, inr,
}
use songguo.Prelude.Int.{ℤ, pos, ltb_ℤ, pos_part, neg_part}
use songguo.Catalog.{Window}
use songguo.Catalog.Clock.{
  parse_clock, location, weekday, on_day, local, weekday_at, minute_at, contains_at, contains,
  all_known, has_days, is_some, is_between, is_ordered, validate,
}
use songguo.Catalog.Windows.{parse_clock-IsNear, location-IsClose, both-left, both-right}

-- An instant at a given weekday and minute of the day, in a zone less than a day from UTC.
instant : (x : ℤ) (wd mins : ℕ) → ℕ
instant x wd mins = 1209600 + (wd + 3) % 7 * 86400 + mins * 60 + neg_part x - pos_part x

weekday-bounded : (d : String) (x : ℕ) → weekday d ≡ some x → x ≤ 6
unfolding weekday
weekday-bounded d x e = ground (arith, e)

instant-local :
    (x : ℤ) (wd mins : ℕ)
    → wd ≤ 6
    → mins ≤ 1439
    → pos_part x ≤ 86400
    → (weekday_at (local x (instant x wd mins)) ≡ wd)
      × (minute_at (local x (instant x wd mins)) ≡ mins)
unfolding instant
instant-local x wd mins a b c = (omega (arith, a, b, c), omega (arith, a, b, c))

on_day-head :
    (d : String) (ds : List String) (x : ℕ) → weekday d ≡ some x → on_day (d ∷ ds) x ≡ true
unfolding on_day
on_day-head d ds x e = ground (arith, e)

-- A list of days that is found fit has a day.
known_day :
    (ds : List String)
    → has_days ds ≡ true
    → all_known ds ≡ true
    → (x : ℕ) × (x ≤ 6) × (on_day ds x ≡ true)
unfolding all_known
known_day [] h k = absurd (ground (arith, h))
known_day (d ∷ ds) h k = elim (Option-cases (weekday d)) [
  | inl e ↦ absurd (ground (arith, e, k))
  | inr (x, e) ↦ (x, weekday-bounded d x e, on_day-head d ds x e)
]

-- What a window that is found fit has.
record IsFit (w : Window) : Type 0 where
  kind : str_eq w.kind "weekly" ≡ true
  zone : is_some (location w) ≡ true
  days : has_days w.days ≡ true
  known : all_known w.days ≡ true
  ordered : is_ordered (parse_clock w.start) (parse_clock w.end) ≡ true

validate-IsFit : (w : Window) → validate w ≡ true → IsFit w
unfolding validate
validate-IsFit w h =
    let h4 = both-left _ (is_ordered (parse_clock w.start) (parse_clock w.end)) h in
    let h3 = both-left _ (all_known w.days) h4 in
    let h2 = both-left _ (has_days w.days) h3 in
    record {
      kind = both-left _ (is_some (location w)) h2;
      zone = both-right (str_eq w.kind "weekly") _ h2;
      days = both-right _ (has_days w.days) h3;
      known = both-right _ (all_known w.days) h4;
      ordered = both-right _ (is_ordered (parse_clock w.start) (parse_clock w.end)) h;
    }

-- At an instant of the first minute that the window has on one of its days.
contains-instant :
    (w : Window) (x : ℤ) (wd : ℕ) (start end : ℤ)
    → str_eq w.kind "weekly" ≡ true
    → location w ≡ some x
    → wd ≤ 6
    → on_day w.days wd ≡ true
    → parse_clock w.start ≡ some start
    → parse_clock w.end ≡ some end
    → ltb_ℤ start end ≡ true
    → ltb_ℤ (pos 0) end ≡ true
    → contains w (instant x wd (pos_part start)) ≡ true
unfolding contains
contains-instant w x wd start end kind zone bound on begin stop ordered late =
    let near = parse_clock-IsNear w.start start begin in
    let found =
      instant-local x wd (pos_part start) bound near.after (location-IsClose w x zone).east in
    let inside : is_between (pos_part start) (some start) (some end) ≡ true =
      ground (arith, ordered, late) in
    rw (kind, zone) (rw (found.0, found.1, begin, stop, on) inside)

only_late :
    (w : Window) (end : ℤ) (at : ℕ)
    → parse_clock w.end ≡ some end
    → contains w at ≡ true
    → ltb_ℤ (pos 0) end ≡ true
unfolding contains
only_late w end at e h = zoned (location w) (both-right (str_eq w.kind "weekly") _ h)
  where
    between :
        (mins : ℕ) (a : Option ℤ)
        → is_between mins a (parse_clock w.end) ≡ true
        → ltb_ℤ (pos 0) end ≡ true
    between mins none k = ground (arith, k)
    between mins (some a) k =
        let k' = subst (λ o. is_between mins (some a) o ≡ true) e k in ground (arith, k')

    zoned :
        (zone : Option ℤ)
        → elim zone [ none ↦ false | some x ↦ contains_at w x at ] ≡ true
        → ltb_ℤ (pos 0) end ≡ true
    zoned none k = ground (arith, k)
    zoned (some x) k =
        between (minute_at (local x at)) (parse_clock w.start)
          (both-right (on_day w.days (weekday_at (local x at))) _ k)

-- Of the windows that `Validate` accepts, those whose end lies after midnight contain an instant and
-- the others contain none.
pub contains_iff :
    (w : Window) (start end : ℤ)
    → parse_clock w.start ≡ some start
    → parse_clock w.end ≡ some end
    → validate w ≡ true
    → ((at : ℕ) × (contains w at ≡ true)) ↔ (ltb_ℤ (pos 0) end ≡ true)
contains_iff w start end begin stop valid = (
  λ r. only_late w end r.0 stop r.1,
  λ late.
      let fit = validate-IsFit w valid in
      let wd = known_day w.days fit.days fit.known in
      let ordered : ltb_ℤ start end ≡ true =
        subst (λ o. is_ordered o (some end) ≡ true) begin
          (subst (λ o. is_ordered (parse_clock w.start) o ≡ true) stop fit.ordered) in
      elim (Option-cases (location w)) [
        | inl e ↦ absurd (ground (arith, e, fit.zone))
        | inr (x, e) ↦ (
          instant x wd.0 (pos_part start),
          contains-instant w x wd.0 start end fit.kind e wd.1 wd.2 begin stop ordered late,
        )
      ],
)
