-- ===== src/Router/Select/Order.antt =====
-- backend/internal/router/router.go: the sort key is a total order, and ordering loses no vendor.
use mathlib.Core.List.Perm
use songguo.Prelude.{
  ℕ, ◌+◌, ◌≡◌, refl, true, false, List, [], ◌∷◌, String, arith, str_eq, map, Perm, All, ap, subst,
  sym,
}
use songguo.Prelude.Map.{Map}
use songguo.Prelude.Sort.{sort_by-perm}
use songguo.Config.{Vendor}
use songguo.Router.Health.Attempts.{State}
use songguo.Router.Select.{
  Floats, RankedVendor, Selector, less, rank_vendor, rank_from, rank_vendors, order, request_rank,
  target_of, bool_rank,
}

module _ (f : Floats) where
  open f use {Float, Sample, lt, eq, eq_lem, lt_asym, ge_trans}

  abbrev Rank : Type 0
  Rank = RankedVendor f

  pub less_asym : (x y : Rank) → less f x y ≡ true → less f y x ≡ false
  unfolding less
  less_asym x y h = ground (
    arith,
    eq_lem x.draw y.draw,
    eq_lem y.draw x.draw,
    lt_asym x.draw y.draw,
    lt_asym y.draw x.draw,
  )

  pub not_less_trans : (x y z : Rank) → less f y x ≡ false → less f z y ≡ false → less f z x ≡ false
  unfolding less
  not_less_trans x y z h k = ground (
    arith,
    eq_lem y.draw x.draw,
    eq_lem z.draw y.draw,
    eq_lem z.draw x.draw,
    lt_asym y.draw x.draw,
    lt_asym z.draw y.draw,
    lt_asym z.draw x.draw,
    ge_trans x.draw y.draw z.draw,
    ge_trans y.draw z.draw x.draw,
    ge_trans z.draw x.draw y.draw,
  )

  -- The key's first three parts are those of the vendor itself.
  pub record IsRanked (s : State) (sel : Selector) (pinned : String) (now : ℕ) (r : Rank)
      : Type 0 where
    pub healthy : r.health ≡ request_rank f s r.vendor.name sel.model now
    pub stuck : r.sticky ≡ bool_rank f (str_eq r.vendor.name pinned)
    pub preferred : r.priority ≡ r.vendor.priority

  module _ (s : State) (sel : Selector) (pinned : String) (now : ℕ) (draws : Map Float) where
    pub rank_vendor-IsRanked :
        (i : ℕ) (v : Vendor) → IsRanked s sel pinned now (rank_vendor f s sel pinned now draws i v)
    unfolding rank_vendor
    rank_vendor-IsRanked i v = record { healthy = refl; stuck = refl; preferred = refl }

    pub rank_from-IsRanked :
        (i : ℕ) (vs : List Vendor)
        → All (IsRanked s sel pinned now) (rank_from f s sel pinned now draws i vs)
    unfolding rank_from rank_vendor
    rank_from-IsRanked i [] = tt
    rank_from-IsRanked i (v ∷ vs) =
        (record { healthy = refl; stuck = refl; preferred = refl }, rank_from-IsRanked (i + 1) vs)

    map-vendor-rank_from :
        (i : ℕ) (vs : List Vendor)
        → map (λ r. r.vendor) (rank_from f s sel pinned now draws i vs) ≡ vs
    unfolding rank_from rank_vendor
    map-vendor-rank_from i [] = refl
    map-vendor-rank_from i (v ∷ vs) = ap (λ l. v ∷ l) (map-vendor-rank_from (i + 1) vs)

  map-target_of :
      (rs : List Rank) → map (λ t. t.vendor) (map (target_of f) rs) ≡ map (λ r. r.vendor) rs
  map-target_of [] = refl
  map-target_of (r ∷ rs) = ap (λ l. r.vendor ∷ l) (map-target_of rs)

  module _ (rand : ℕ → Sample) (s : State) (sel : Selector) (pinned : String) (now : ℕ) where
    -- Ordering drops no vendor, adds none and repeats none, whatever the health of each.
    pub order-perm :
        (vs : List Vendor) → Perm (map (λ t. t.vendor) (order f rand s sel pinned now vs)) vs
    unfolding order rank_vendors
    order-perm vs =
        subst (λ l. Perm l vs) (sym (map-target_of _))
          (subst (Perm _) (map-vendor-rank_from s sel pinned now _ 0 vs)
            (Perm.map (λ r. r.vendor) (sort_by-perm (less f) _)))
