-- ===== src/Wire.antt =====
-- backend/internal/wire/wire.go: which wire serves a path. `strings.ToLower` and the registry, which
-- the other files of the package fill, are arguments.
pub mod Order
pub mod Longest
pub mod Resolved
pub mod Lines
pub mod Tests
use Prim.Native.String
use Prim.Native.Char.{Char, code}
use songguo.Prelude.{
  ℕ, ◌+◌, ◌-◌, Bool, true, false, ◌&&◌, ◌||◌, Option, none, some, List, [], ◌∷◌, String,
  if◌then◌else◌, str_eq, leb, ltb, ◌==◌, is_before,
}
use songguo.Prelude.Map.{Map, lookup}
use text.Mathlib.Text.{is_lt, find?}

-- The name and the suffixes of a `Wire`.
pub record Wire : Type 0 where
  pub name : String
  pub suffixes : List String

-- `strings.TrimRight(p, "/")`
abbrev pub trim_slashes : String → String
trim_slashes String.[] = ""
trim_slashes (String.◌∷◌ c s) =
    let rest = trim_slashes s in if str_eq rest "" && (code c == 47) then "" else String.◌∷◌ c rest

-- `normalizePath`
unfoldable pub normalize_path : (String → String) → String → String
normalize_path lower path =
    let p = lower path in
    trim_slashes (elim (find? p "?") [ none ↦ p | some i ↦ String.slice p 0 i ])

-- `strings.HasSuffix`
abbrev pub has_suffix : String → String → Bool
has_suffix p suf =
    leb (String.len suf) (String.len p)
    && str_eq (String.slice p (String.len p - String.len suf) (String.len p)) suf

-- `best` with `bestLen`.
pub record Match : Type 0 where
  pub wire : Wire
  pub length : ℕ

-- `len(suf) > bestLen || (len(suf) == bestLen && w.Name < best.Name)`
abbrev pub beats : Match → Match → Bool
beats m b = ltb b.length m.length || ((m.length == b.length) && is_before m.wire.name b.wire.name)

abbrev pub take_better : Option Match → Match → Option Match
take_better none m = some m
take_better (some b) m = if beats m b then some m else some b

-- The loop over the suffixes of one wire.
unfoldable pub try_suffixes : String → Wire → List String → Option Match → Option Match
try_suffixes p w [] best = best
try_suffixes p w (suf ∷ sufs) best = try_suffixes p w sufs (
    if has_suffix p suf
    then take_better best (record { wire = w; length = String.len suf })
    else best)

-- The loop over the enabled names.
unfoldable pub try_wires : Map Wire → String → List String → Option Match → Option Match
unfolding try_suffixes
try_wires registry p [] best = best
try_wires registry p (name ∷ names) best =
    try_wires registry p names
      (elim (lookup name registry) [ none ↦ best | some w ↦ try_suffixes p w w.suffixes best ])

abbrev pub wire_of : Option Match → Option Wire
wire_of none = none
wire_of (some m) = some m.wire

-- `Resolve`
unfoldable pub resolve : Map Wire → (String → String) → List String → String → Option Wire
unfolding try_wires normalize_path
resolve registry lower enabled path =
    wire_of (try_wires registry (normalize_path lower path) enabled none)
