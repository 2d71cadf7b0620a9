-- ===== src/Catalog/Windows.antt =====
-- backend/internal/catalog/catalog.go: what a window contains, and when that is nothing.
use Prim.Native.String
use songguo.Prelude.{
  ℕ, ◌+◌, ◌≤◌, ◌≡◌, refl, Bool, true, false, ◌&&◌, ◌||◌, Option, none, some, String, arith,
  if◌then◌else◌, str_eq, Option-cases, ap, subst, inl, inr,
}
use songguo.Prelude.Int.{ℤ, pos, ◌+ℤ◌, ◌-ℤ◌, ◌*ℤ◌, pos_part, neg_part}
use songguo.Catalog.{Window}
use songguo.Catalog.Clock.{
  atoi, minutes, parse_clock, location, seconds_of, offset_of, on_day, week, local, weekday_at,
  minute_at, contains_at, contains, is_between,
}

-- Hours and minutes lie within a day, or less than ten hours before it.
pub record IsNear (x : ℤ) : Type 0 where
  pub after : pos_part x ≤ 1439
  pub before : neg_part x ≤ 1439

atoi-bounded : (s : String) (x : ℤ) → atoi s ≡ some x → neg_part x ≤ 9
unfolding ◌-ℤ◌
atoi-bounded String.[] x e = ground (arith, e)
atoi-bounded (String.◌∷◌ a String.[]) x e = ground (arith, e)
atoi-bounded (String.◌∷◌ a (String.◌∷◌ b String.[])) x e = ground (arith, e)
atoi-bounded (String.◌∷◌ a (String.◌∷◌ b (String.◌∷◌ c s))) x e = ground (arith, e)

minutes-IsNear :
    (h m : Option ℤ) (x : ℤ)
    → ((y : ℤ) → h ≡ some y → neg_part y ≤ 9)
    → ((y : ℤ) → m ≡ some y → neg_part y ≤ 9)
    → minutes h m ≡ some x
    → IsNear x
unfolding ◌+ℤ◌ ◌*ℤ◌
minutes-IsNear none m x p q e = ground (arith, e)
minutes-IsNear (some h) none x p q e = ground (arith, e)
minutes-IsNear (some h) (some m) x p q e = ground (arith, e, p h refl, q m refl)

-- A zone at most a day away.
pub record IsClose (x : ℤ) : Type 0 where
  pub east : pos_part x ≤ 86400
  pub west : neg_part x ≤ 86400

-- A result that is asked for on one condition only.
if-some : (b : Bool) (o : Option ℤ) (x : ℤ) → (if b then o else none) ≡ some x → o ≡ some x
if-some true o x e = e
if-some false o x e = ground (arith, e)

pub parse_clock-IsNear : (s : String) (x : ℤ) → parse_clock s ≡ some x → IsNear x
unfolding parse_clock
parse_clock-IsNear s x e =
    minutes-IsNear (atoi (String.slice s 0 2)) (atoi (String.slice s 3 5)) x
      (atoi-bounded (String.slice s 0 2)) (atoi-bounded (String.slice s 3 5)) (if-some _ _ x e)

seconds_of-IsClose :
    (is_west : Bool) (o : Option ℤ) (x : ℤ)
    → ((m : ℤ) → o ≡ some m → IsNear m)
    → seconds_of is_west o ≡ some x
    → IsClose x
unfolding ◌*ℤ◌ ◌-ℤ◌
seconds_of-IsClose is_west none x h e = ground (arith, e)
seconds_of-IsClose true (some m) x h e = ground (arith, e, (h m refl).after, (h m refl).before)
seconds_of-IsClose false (some m) x h e = ground (arith, e, (h m refl).after, (h m refl).before)

offset_of-IsClose : (s : String) (x : ℤ) → offset_of s ≡ some x → IsClose x
offset_of-IsClose s x e =
    seconds_of-IsClose _ (minutes (atoi (String.slice s 1 3)) (atoi (String.slice s 4 6))) x
      (λ m p.
        minutes-IsNear (atoi (String.slice s 1 3)) (atoi (String.slice s 4 6)) m
          (atoi-bounded (String.slice s 1 3)) (atoi-bounded (String.slice s 4 6)) p)
      (if-some _ _ x e)

pub location-IsClose : (w : Window) (x : ℤ) → location w ≡ some x → IsClose x
unfolding location
location-IsClose w x e = at (str_eq w.offset "" || str_eq w.offset "Z") e
  where
    at : (b : Bool) → (if b then some (pos 0) else offset_of w.offset) ≡ some x → IsClose x
    at true p = ground (arith, p)
    at false p = offset_of-IsClose w.offset x p

pub both-left : (b c : Bool) → b && c ≡ true → b ≡ true
both-left true c h = refl
both-left false c h = ground (arith, h)

pub both-right : (b c : Bool) → b && c ≡ true → c ≡ true
both-right true c h = h
both-right false c h = ground (arith, h)

both-false : (b c : Bool) → c ≡ false → b && c ≡ false
both-false true c h = h
both-false false c h = refl

is_between-meeting :
    (mins : ℕ) (a b c d : Option ℤ)
    → b ≡ c
    → is_between mins a b ≡ true
    → is_between mins c d ≡ false
is_between-meeting mins none b c d e h = ground (arith, h)
is_between-meeting mins (some a) none c d e h = ground (arith, h)
is_between-meeting mins (some a) (some b) none d e h = refl
is_between-meeting mins (some a) (some b) (some c) none e h = refl
is_between-meeting mins (some a) (some b) (some c) (some d) e h = ground (arith, e, h)

zoned-meeting :
    (v w : Window) (at : ℕ) (zone : Option ℤ)
    → parse_clock v.end ≡ parse_clock w.start
    → elim zone [ none ↦ false | some x ↦ contains_at v x at ] ≡ true
    → elim zone [ none ↦ false | some x ↦ contains_at w x at ] ≡ false
zoned-meeting v w at none meet h = refl
zoned-meeting v w at (some x) meet h =
    let mins = minute_at (local x at) in
    let inside = both-right (on_day v.days (weekday_at (local x at))) _ h in
    both-false (on_day w.days (weekday_at (local x at))) _ (
      is_between-meeting mins (parse_clock v.start) (parse_clock v.end) (parse_clock w.start)
        (parse_clock w.end) meet inside)

-- Two windows of one zone of which one begins when the other ends have no instant in common.
pub contains-meeting :
    (v w : Window) (at : ℕ)
    → location v ≡ location w
    → parse_clock v.end ≡ parse_clock w.start
    → contains v at ≡ true
    → contains w at ≡ false
unfolding contains
contains-meeting v w at zone meet h =
    let inside = both-right (str_eq v.kind "weekly") _ h in
    both-false (str_eq w.kind "weekly") _ (
      zoned-meeting v w at (location w) meet
        (subst (λ z. elim z [ none ↦ false | some x ↦ contains_at v x at ] ≡ true) zone inside))

-- A window repeats every week.
pub contains-week : (w : Window) (at : ℕ) → contains w (at + week) ≡ contains w at
unfolding contains
contains-week w at = elim (Option-cases (location w)) [
  | inl e ↦ rw e refl
  | inr (x, e) ↦ rw e (ap (λ b. str_eq w.kind "weekly" && b) (same x (location-IsClose w x e).west))
]
  where
    same : (x : ℤ) → neg_part x ≤ 86400 → contains_at w x (at + week) ≡ contains_at w x at
    same x b =
        let days : weekday_at (local x (at + week)) ≡ weekday_at (local x at) = omega (arith, b) in
        let mins : minute_at (local x (at + week)) ≡ minute_at (local x at) = omega (arith, b) in
        rw (days, mins) refl
