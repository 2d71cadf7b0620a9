-- ===== src/Prelude/Text.antt =====
-- Go's order on text: by bytes, which is that of the characters.
use Prim.Native.String
use Prim.Native.String.compare
use mathlib.Core.Path.{◌≡◌, refl}
use mathlib.Core.Bool.{Bool, true, false}
use native.Mathlib.Omega.{arith}
use text.Mathlib.Text.{is_lt, ◌==◌}
use text.Mathlib.TextEquality.{eq_iff}
use Prim.Native.String.{String}

-- `<` on text
abbrev pub is_before : String → String → Bool
is_before s t = is_lt (String.compare s t)

pub is_before_trans :
    (s t u : String) → is_before s t ≡ true → is_before t u ≡ true → is_before s u ≡ true
is_before_trans String.[] String.[] u h k = k
is_before_trans String.[] (String.◌∷◌ d t) String.[] h k =
    absurd (ground (arith, compare.cons-nil d t, k))
is_before_trans String.[] (String.◌∷◌ d t) (String.◌∷◌ e u) h k =
    ground (arith, compare.nil-cons e u)
is_before_trans (String.◌∷◌ c s) String.[] u h k = absurd (ground (arith, compare.cons-nil c s, h))
is_before_trans (String.◌∷◌ c s) (String.◌∷◌ d t) String.[] h k =
    absurd (ground (arith, compare.cons-nil d t, k))
is_before_trans (String.◌∷◌ c s) (String.◌∷◌ d t) (String.◌∷◌ e u) h k = ground (
  arith,
  h,
  k,
  compare.cons-cons c d s t,
  compare.cons-cons d e t u,
  compare.cons-cons c e s u,
  is_before_trans s t u,
)

pub not_before_self : (s : String) → is_before s s ≡ false
not_before_self s = ground (arith, (eq_iff s s).1 refl)

-- Two texts of which neither is before the other are the same.
neither_before : (s t : String) → is_before s t ≡ false → is_before t s ≡ false → s == t ≡ true
neither_before String.[] String.[] h k = (eq_iff String.[] String.[]).1 refl
neither_before String.[] (String.◌∷◌ d t) h k = absurd (ground (arith, compare.nil-cons d t, h))
neither_before (String.◌∷◌ c s) String.[] h k = absurd (ground (arith, compare.nil-cons c s, k))
neither_before (String.◌∷◌ c s) (String.◌∷◌ d t) h k =
    ground (arith, h, k, compare.cons-cons c d s t, compare.cons-cons d c t s, neither_before s t)

pub not_before_trans :
    (s t u : String) → is_before t s ≡ false → is_before u t ≡ false → is_before u s ≡ false
not_before_trans s t u h k =
    ground (arith, h, k, is_before_trans u s t, neither_before s t, eq_iff s t)

pub not_before_back : (s t : String) → is_before s t ≡ true → is_before t s ≡ false
not_before_back s t h = ground (arith, h, is_before_trans s t s h, not_before_self s)
