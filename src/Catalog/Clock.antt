-- ===== src/Catalog/Clock.antt =====
-- backend/internal/catalog/catalog.go: the windows of a schedule. An instant is in seconds since
-- 1970 (UTC), and from 1970 on; `local` is a week later than the source's, so that no offset reaches
-- below it.
use Prim.Native.String
use Prim.Native.Char.{code}
use songguo.Prelude.{
  ℕ, ◌+◌, ◌-◌, ◌*◌, ◌/◌, ◌%◌, Bool, true, false, ◌&&◌, ◌||◌, Option, none, some, List, [], ◌∷◌,
  String, if◌then◌else◌, str_eq, leb, ◌==◌,
}
use songguo.Prelude.Int.{ℤ, pos, leb_ℤ, ltb_ℤ, ◌+ℤ◌, ◌-ℤ◌, ◌*ℤ◌, pos_part, neg_part}
use songguo.Catalog.{Window}

abbrev pub colon : ℕ
colon = 58

abbrev pub plus_sign : ℕ
plus_sign = 43

abbrev pub minus_sign : ℕ
minus_sign = 45

-- `strconv.Atoi` on the two bytes of an hour or a minute: a sign may take the place of a digit.
abbrev digit : ℕ → Option ℕ
digit c = if leb 48 c && leb c 57 then some (c - 48) else none

abbrev two_bytes : ℕ → ℕ → Option ℤ
two_bytes a b = elim (digit b) [
  | none ↦ none
  | some y ↦ elim (digit a) [
    | some x ↦ some (pos (10 * x + y))
    | none ↦
        if a == plus_sign
        then some (pos y)
        else if a == minus_sign
        then some (pos 0 -ℤ pos y)
        else none
  ]
]

abbrev pub atoi : String → Option ℤ
atoi String.[] = none
atoi (String.◌∷◌ a String.[]) = none
atoi (String.◌∷◌ a (String.◌∷◌ b String.[])) = two_bytes (code a) (code b)
atoi (String.◌∷◌ a (String.◌∷◌ b (String.◌∷◌ c s))) = none

-- Hours and minutes, as a number of minutes.
abbrev pub minutes : Option ℤ → Option ℤ → Option ℤ
minutes none m = none
minutes (some h) none = none
minutes (some h) (some m) =
    if leb_ℤ h (pos 23) && leb_ℤ m (pos 59) then some (h *ℤ pos 60 +ℤ m) else none

-- `parseClock`
unfoldable pub parse_clock : String → Option ℤ
parse_clock s =
    if String.len s == 5 && (code (String.char_at s 2) == colon)
    then minutes (atoi (String.slice s 0 2)) (atoi (String.slice s 3 5))
    else none

-- The seconds of an offset, by its sign.
abbrev pub seconds_of : Bool → Option ℤ → Option ℤ
seconds_of is_west none = none
seconds_of is_west (some m) = some (if is_west then pos 0 -ℤ m *ℤ pos 60 else m *ℤ pos 60)

-- An offset in the form `±HH:MM`.
abbrev pub is_offset : String → Bool
is_offset s =
    let sign = code (String.char_at s 0) in
    String.len s == 6
    && (code (String.char_at s 3) == colon)
    && ((sign == plus_sign) || (sign == minus_sign))

abbrev pub offset_of : String → Option ℤ
offset_of s =
    if is_offset s
    then seconds_of (code (String.char_at s 0) == minus_sign)
        (minutes (atoi (String.slice s 1 3)) (atoi (String.slice s 4 6)))
    else none

-- `location`: the offset in seconds.
unfoldable pub location : Window → Option ℤ
location w = if str_eq w.offset "" || str_eq w.offset "Z" then some (pos 0) else offset_of w.offset

-- `weekdays`
unfoldable pub weekday : String → Option ℕ
weekday d =
    if str_eq d "sun"
    then some 0
    else if str_eq d "mon"
    then some 1
    else if str_eq d "tue"
    then some 2
    else if str_eq d "wed"
    then some 3
    else if str_eq d "thu"
    then some 4
    else if str_eq d "fri"
    then some 5
    else if str_eq d "sat"
    then some 6
    else none

abbrev pub day : ℕ
day = 86400

abbrev pub week : ℕ
week = 604800

-- `t.In(loc)`, and its weekday and minute of the day.
abbrev pub local : ℤ → ℕ → ℕ
local offset at = at + week + pos_part offset - neg_part offset

abbrev pub weekday_at : ℕ → ℕ
weekday_at local = (local / 86400 + 4) % 7

abbrev pub minute_at : ℕ → ℕ
minute_at local = local % 86400 / 60

unfoldable pub on_day : List String → ℕ → Bool
on_day [] wd = false
on_day (d ∷ ds) wd = elim (weekday d) [ none ↦ on_day ds wd | some x ↦ (x == wd) || on_day ds wd ]

abbrev pub is_between : ℕ → Option ℤ → Option ℤ → Bool
is_between mins none end = false
is_between mins (some start) none = false
is_between mins (some start) (some end) = leb_ℤ start (pos mins) && ltb_ℤ (pos mins) end

-- From a known offset on.
abbrev pub contains_at : Window → ℤ → ℕ → Bool
contains_at w offset at =
    let t = local offset at in
    on_day w.days (weekday_at t)
    && is_between (minute_at t) (parse_clock w.start) (parse_clock w.end)

-- `Contains`
unfoldable pub contains : Window → ℕ → Bool
unfolding parse_clock location on_day
contains w at =
    str_eq w.kind "weekly"
    && elim (location w) [ none ↦ false | some offset ↦ contains_at w offset at ]

unfoldable pub all_known : List String → Bool
unfolding weekday
all_known [] = true
all_known (d ∷ ds) = elim (weekday d) [ none ↦ false | some x ↦ all_known ds ]

abbrev pub is_ordered : Option ℤ → Option ℤ → Bool
is_ordered none end = false
is_ordered (some start) none = false
is_ordered (some start) (some end) = ltb_ℤ start end

abbrev pub has_days : List String → Bool
has_days [] = false
has_days (d ∷ ds) = true

abbrev pub is_some : Option ℤ → Bool
is_some none = false
is_some (some x) = true

-- `Window.Validate`: whether it answers nil.
unfoldable pub validate : Window → Bool
unfolding parse_clock location all_known
validate w =
    str_eq w.kind "weekly"
    && is_some (location w)
    && has_days w.days
    && all_known w.days
    && is_ordered (parse_clock w.start) (parse_clock w.end)
