-- ===== src/Config/Snapshot/Defaults.antt =====
-- backend/internal/config/config.go: what `normalize` establishes.
use songguo.Prelude.{
  ◌+◌, ◌≤◌, ◌≡◌, ◌≢◌, refl, Bool, true, List, [], ◌∷◌, map, String, arith, if◌then◌else◌, str_eq,
  eq_iff, ap, leb, All,
}
use songguo.Prelude.Int.{ℤ, neg_part}
use songguo.Prelude.Map.{Map}
use songguo.Prelude.Sort.{sort_by}
use songguo.Prelude.Member.{Mem, here, there}
use songguo.Config.{Vendor, ModelRoute}
use songguo.Config.Snapshot.{
  clamp, keys, text_less, normalize_routes, normalize_wires, normalize_vendor, normalize,
  adapter_openai,
}

clamp-clamp : (n : ℤ) → clamp (clamp n) ≡ clamp n
clamp-clamp n = ground arith

clamp-nonneg : (n : ℤ) → neg_part (clamp n) ≡ 0
clamp-nonneg n = ground arith

normalize_routes_idem :
    (rs : Map ModelRoute) → normalize_routes (normalize_routes rs) ≡ normalize_routes rs
unfolding normalize_routes
normalize_routes_idem [] = refl
normalize_routes_idem ((m, r) ∷ rs) = ground (arith, clamp-clamp r.weight, normalize_routes_idem rs)

normalize_wires_idem :
    (ws : List String) (es : Map String)
    → normalize_wires (normalize_wires ws es) es ≡ normalize_wires ws es
unfolding normalize_wires
normalize_wires_idem (w ∷ ws) es = refl
normalize_wires_idem [] es = again (sort_by text_less (keys es)) refl
  where
    again : (ws : List String) → ws ≡ sort_by text_less (keys es) → normalize_wires ws es ≡ ws
    again [] e = songguo.Prelude.sym e
    again (w ∷ ws) e = refl

pub normalize_vendor_idem :
    (v : Vendor) → normalize_vendor (normalize_vendor v) ≡ normalize_vendor v
unfolding normalize_vendor
normalize_vendor_idem v = ground (
  arith,
  clamp-clamp v.weight,
  clamp-clamp v.max_concurrency,
  normalize_routes_idem v.model_routes,
  normalize_wires_idem v.wires v.endpoints,
  eq_iff v.adapter "",
  eq_iff v.credential.id "",
  eq_iff v.name "",
  eq_iff adapter_openai "",
)

-- Normalizing a configuration twice is normalizing it once.
pub normalize_idem : (vs : List Vendor) → normalize (normalize vs) ≡ normalize vs
unfolding normalize
normalize_idem [] = refl
normalize_idem (v ∷ vs) = ground (arith, normalize_vendor_idem v, normalize_idem vs)

normalize_routes_nonneg :
    (rs : Map ModelRoute) → All (λ e. neg_part (e.1).weight ≡ 0) (normalize_routes rs)
unfolding normalize_routes
normalize_routes_nonneg [] = tt
normalize_routes_nonneg ((m, r) ∷ rs) = (clamp-nonneg r.weight, normalize_routes_nonneg rs)

-- A normalized vendor has no negative weight, on itself or on a route, and no negative limit; its
-- adapter is named, and so is its credential if the vendor is named.
pub normalize_vendor_defaults :
    (v : Vendor)
    → let w = normalize_vendor v in
      (neg_part w.weight ≡ 0)
      × (neg_part w.max_concurrency ≡ 0)
      × All (λ e. neg_part (e.1).weight ≡ 0) w.model_routes
      × (w.adapter ≢ "")
      × (v.name ≢ "" → w.credential.id ≢ "")
unfolding normalize_vendor
normalize_vendor_defaults v = (
  clamp-nonneg v.weight,
  clamp-nonneg v.max_concurrency,
  normalize_routes_nonneg v.model_routes,
  ground (arith, eq_iff v.adapter "", eq_iff adapter_openai ""),
  ground (arith, eq_iff v.credential.id ""),
)

Mem-normalize_wires :
    (w : String) (ws : List String) (es : Map String) → Mem w ws → Mem w (normalize_wires ws es)
unfolding normalize_wires
Mem-normalize_wires w [] es m = elim m [ ]
Mem-normalize_wires w (x ∷ ws) es m = m

-- What the defaults leave of a vendor.
pub record IsKept (v w : Vendor) : Type 0 where
  pub name : w.name ≡ v.name
  pub origin : w.origin ≡ v.origin
  pub wires : (x : String) → Mem x v.wires → Mem x w.wires

pub normalize_vendor-IsKept : (v : Vendor) → IsKept v (normalize_vendor v)
unfolding normalize_vendor
normalize_vendor-IsKept v = record {
  name = refl;
  origin = refl;
  wires = λ x m. Mem-normalize_wires x v.wires v.endpoints m;
}

pub Mem-normalize :
    (v : Vendor) (vs : List Vendor) → Mem v vs → Mem (normalize_vendor v) (normalize vs)
unfolding normalize
Mem-normalize v _ (here vs) = here (normalize vs)
Mem-normalize v _ (there w vs m) = there (normalize_vendor w) (normalize vs) (Mem-normalize v vs m)
