-- ===== src/Router/Affinity.antt =====
-- backend/internal/router/affinity.go: which vendor served each session.
pub mod Bounds
pub mod Reads
pub mod Tests
use songguo.Prelude.{
  ℕ, suc, ◌+◌, ◌-◌, ◌*◌, Bool, true, false, ◌||◌, ◌&&◌, not, Option, none, some, List, [], ◌∷◌,
  String, ltb, leb, if◌then◌else◌, length, str_eq,
}
use songguo.Prelude.Map.{Map, lookup, insert, erase, keep_values}
use songguo.Prelude.Sort.{sort_by}
use songguo.Prelude.Time.{minute}

pub record Entry : Type 0 where
  pub vendor : String
  pub seen : ℕ

pub record Affinity : Type 0 where
  pub ttl : ℕ
  pub max : ℕ
  pub entries : Map Entry
  pub next_sweep : ℕ

abbrev pub sweep_interval : ℕ
sweep_interval = 5 * minute

-- `newAffinity`
unfoldable pub new : ℕ → ℕ → ℕ → Affinity
new now ttl max = record { ttl = ttl; max = max; entries = []; next_sweep = now + sweep_interval }

-- `now.Sub(e.seen) >= a.ttl`, over instants of any order.
abbrev pub is_stale : Affinity → ℕ → Entry → Bool
is_stale a now e = leb (e.seen + a.ttl) now

-- `sweepLocked`
pub sweep : Affinity → ℕ → Affinity
sweep a now = if ltb now a.next_sweep then a else record a {
  next_sweep = now + sweep_interval;
  entries = keep_values (λ e. not (is_stale a now e)) a.entries;
}

vendor_of : Affinity → ℕ → Option Entry → String
vendor_of a now none = ""
vendor_of a now (some e) = if is_stale a now e then "" else e.vendor

-- `get`: it sweeps, and "" stands for no pin.
unfoldable pub get : Affinity → String → ℕ → Affinity × String
unfolding sweep vendor_of
get a key now =
    if str_eq key ""
    then (a, "")
    else (sweep a now, vendor_of (sweep a now) now (lookup key (sweep a now).entries))

-- `delete(a.entries, all[i].key)` for the first `n` of `all`.
drop_oldest : ℕ → Map Entry → Map Entry → Map Entry
drop_oldest ℕ.zero all m = m
drop_oldest (suc n) [] m = m
drop_oldest (suc n) ((k, e) ∷ all) m = drop_oldest n all (erase k m)

abbrev pub older : String × Entry → String × Entry → Bool
older x y = ltb (x.1).seen (y.1).seen

-- `evictLocked`. `sort.Slice` may order entries of one age either way; here the map's order decides.
pub evict : Affinity → Affinity
unfolding drop_oldest
evict a = if leb (length a.entries) a.max then a else record a {
  entries = drop_oldest (length a.entries - a.max) (sort_by older a.entries) a.entries;
}

pub pin : Affinity → String → String → ℕ → Affinity
pin a key vendor now = record a {
  entries = insert key (record { vendor = vendor; seen = now }) a.entries;
}

-- `set`
unfoldable pub set : Affinity → String → String → ℕ → Affinity
unfolding sweep pin evict
set a key vendor now =
    if str_eq key "" || str_eq vendor "" then a else evict (pin (sweep a now) key vendor now)

count_entries : Affinity → String → ℕ → Map Entry → ℕ
count_entries a vendor now [] = 0
count_entries a vendor now ((k, e) ∷ m) =
    let rest = count_entries a vendor now m in
    if str_eq e.vendor vendor && ltb now (e.seen + a.ttl) then suc rest else rest

-- `countFor`
unfoldable pub count_for : Affinity → String → ℕ → ℕ
unfolding count_entries
count_for a vendor now = count_entries a vendor now a.entries
