-- ===== src/Router/Affinity/Tests.antt =====
-- Pins of a few sessions.
use songguo.Prelude.{◌≢◌, refl, [], ◌∷◌, String, arith, eq_iff}
use songguo.Router.Affinity.{Affinity, set}
use songguo.Router.Affinity.Bounds.{IsSound, set-IsSound}

abbrev two_pins : Affinity
two_pins = record {
  ttl = 30;
  max = 2;
  entries =
      ("s", record { vendor = "v"; seen = 5 }) ∷ ("t", record { vendor = "w"; seen = 7 }) ∷ [];
  next_sweep = 10;
}

abbrev one_pin : Affinity
one_pin = record two_pins { entries = ("t", record { vendor = "w"; seen = 7 }) ∷ [] }

abbrev too_many : Affinity
too_many = record two_pins { max = 1 }

two_pins-IsSound : IsSound two_pins
two_pins-IsSound = record { unique = (refl, (refl, tt)); bounded = omega arith }

one_pin-IsSound : IsSound one_pin
one_pin-IsSound = record { unique = (refl, tt); bounded = omega arith }

s_named : ◌≢◌ {A = String} "s" ""
s_named = ground (arith, eq_iff "s" "")

v_named : ◌≢◌ {A = String} "v" ""
v_named = ground (arith, eq_iff "v" "")

set-IsSound_example : IsSound (set two_pins "u" "v" 8)
set-IsSound_example = set-IsSound two_pins "u" "v" 8 two_pins-IsSound
