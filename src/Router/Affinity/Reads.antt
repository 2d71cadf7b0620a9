-- ===== src/Router/Affinity/Reads.antt =====
-- backend/internal/router/affinity.go: what a session's next request reads.
use songguo.Prelude.{
  ℕ, ◌+◌, ◌≤◌, ◌<◌, ◌≡◌, refl, ◌≢◌, not, none, some, String, arith, if◌then◌else◌, length, eq_iff,
  ◌∙◌,
}
use songguo.Prelude.Map.{
  lookup, lookup-insert, lookup-keep_values, length-keep_values-le, length-insert-le,
}
use songguo.Router.Affinity.{Affinity, is_stale, sweep, get, evict, pin, set}
use songguo.Router.Affinity.Bounds.{IsSound, set-IsSound}

-- What a map that is never swept would answer.
pub pinned_vendor : Affinity → String → ℕ → String
pinned_vendor a key now = elim (lookup key a.entries) [
  | none ↦ ""
  | some e ↦ if is_stale a now e then "" else e.vendor
]

-- A sweep shows in no answer: a read finds the vendor of the key's pin until the pin has been idle
-- for `ttl`, and no vendor otherwise, whenever the last sweep was.
pub get-pinned_vendor :
    (a : Affinity) (key : String) (now : ℕ)
    → IsSound a
    → key ≢ ""
    → (get a key now).1 ≡ pinned_vendor a key now
unfolding get pinned_vendor sweep
get-pinned_vendor a key now v h =
    ground (
      arith,
      eq_iff key "",
      lookup-keep_values (λ e. not (is_stale a now e)) key a.entries v.unique,
    )

lookup-pin :
    (a : Affinity) (key vendor : String) (now : ℕ)
    → lookup key (pin a key vendor now).entries ≡ some (record { vendor = vendor; seen = now })
unfolding pin
lookup-pin a key vendor now = ground (
  arith,
  eq_iff key key,
  lookup-insert key key (record { vendor = vendor; seen = now }) a.entries,
)

pin-ttl : (a : Affinity) (key vendor : String) (now : ℕ) → (pin a key vendor now).ttl ≡ a.ttl
unfolding pin
pin-ttl a key vendor now = refl

sweep_view :
    (a : Affinity) (now : ℕ)
    → (length (sweep a now).entries ≤ length a.entries)
      × ((sweep a now).max ≡ a.max)
      × ((sweep a now).ttl ≡ a.ttl)
unfolding sweep
sweep_view a now = ground (arith, length-keep_values-le (λ e. not (is_stale a now e)) a.entries)

set-pin :
    (a : Affinity) (key vendor : String) (now : ℕ)
    → key ≢ ""
    → vendor ≢ ""
    → length a.entries < a.max
    → set a key vendor now ≡ pin (sweep a now) key vendor now
unfolding set evict pin
set-pin a key vendor now h k l = ground (
  arith,
  eq_iff key "",
  eq_iff vendor "",
  sweep_view a now,
  length-insert-le key (record { vendor = vendor; seen = now }) (sweep a now).entries,
)

-- A session that was pinned reads its vendor until it has been idle for `ttl`, provided that the
-- map was below its cap when the pin was set.
pub get-set :
    (a : Affinity) (key vendor : String) (now later : ℕ)
    → IsSound a
    → key ≢ ""
    → vendor ≢ ""
    → length a.entries < a.max
    → later < now + a.ttl
    → (get (set a key vendor now) key later).1 ≡ vendor
unfolding pinned_vendor
get-set a key vendor now later v h k l t =
    get-pinned_vendor (set a key vendor now) key later (set-IsSound a key vendor now v) h
    ∙ rw (set-pin a key vendor now h k l)
        (ground (arith, lookup-pin (sweep a now) key vendor now, ttl-pin))
  where
    ttl-pin : (pin (sweep a now) key vendor now).ttl ≡ a.ttl
    ttl-pin = ground (arith, pin-ttl (sweep a now) key vendor now, sweep_view a now)
