-- ===== src/Router/Select/Choice.antt =====
-- backend/internal/router/router.go: which vendors Select offers a request, and in what order.
use songguo.Prelude.{
  ℕ, ◌+◌, ◌≤◌, ◌≡◌, refl, ◌↔◌, true, false, none, some, List, [], ◌∷◌, String, arith, str_eq, map,
  Perm, All, subst, sym,
}
use songguo.Prelude.Int.{leb_ℤ}
use songguo.Prelude.Map.{Map}
use songguo.Prelude.Sort.{sort_by, sort_by-IsSorted, All-sort_by, All-of-sort_by, IsSorted}
use songguo.Config.{Vendor}
use songguo.Config.Snapshot.{Snapshot}
use songguo.Router.Affinity
use songguo.Router.Health.Attempts.{State}
use songguo.Router.Select.{
  Floats, RankedVendor, Selector, Target, Router, less, rank_vendor, rank_from, rank_vendors, order,
  order_candidates, request_rank, target_of, bool_rank, draw_all, candidates, select, affinity_key,
}
use songguo.Router.Select.Order.{
  IsRanked, less_asym, not_less_trans, rank_vendor-IsRanked, rank_from-IsRanked, order-perm,
}

module _ (f : Floats) where
  open f use {Float, Sample, lt_asym, eq_lem}

  -- The first vendor is no less healthy for the request than the second; among equals it is pinned
  -- if the second is; and among equals again its priority is no worse.
  abbrev pub Outranks : State → Selector → String → ℕ → Vendor → Vendor → Type 0
  Outranks s sel pinned now w v =
      let hw = request_rank f s w.name sel.model now in
      let hv = request_rank f s v.name sel.model now in
      let sw = bool_rank f (str_eq w.name pinned) in
      let sv = bool_rank f (str_eq v.name pinned) in
      (hw ≤ hv) × (hw ≡ hv → sw ≤ sv) × (hw ≡ hv → sw ≡ sv → leb_ℤ w.priority v.priority ≡ true)

  not_less_self : (r : RankedVendor f) → less f r r ≡ false
  unfolding less
  not_less_self r = ground (arith, eq_lem r.draw r.draw, lt_asym r.draw r.draw)

  module _ (s : State) (sel : Selector) (pinned : String) (now : ℕ) where
    Outranks-of_ranks :
        (r y : RankedVendor f)
        → IsRanked f s sel pinned now r
        → IsRanked f s sel pinned now y
        → less f y r ≡ false
        → Outranks s sel pinned now r.vendor y.vendor
    unfolding less
    Outranks-of_ranks r y p q h =
        ground (arith, p.healthy, p.stuck, p.preferred, q.healthy, q.stuck, q.preferred)

    All-Outranks :
        (r : RankedVendor f) (draws : Map Float) (i : ℕ) (vs : List Vendor)
        → IsRanked f s sel pinned now r
        → All (λ y. less f y r ≡ false) (rank_from f s sel pinned now draws i vs)
        → All (Outranks s sel pinned now r.vendor) vs
    unfolding rank_from
    All-Outranks r draws i [] p h = tt
    All-Outranks r draws i (v ∷ vs) p h = (
      Outranks-of_ranks r (rank_vendor f s sel pinned now draws i v) p
          (rank_vendor-IsRanked f s sel pinned now draws i v) h.0,
      All-Outranks r draws (i + 1) vs p h.1,
    )

    leads :
        (ranks sorted : List (RankedVendor f)) (t : Target) (ts : List Target)
        → sort_by (less f) ranks ≡ sorted
        → All (IsRanked f s sel pinned now) sorted
        → IsSorted (less f) sorted
        → map (target_of f) sorted ≡ t ∷ ts
        → (r : RankedVendor f) × IsRanked f s sel pinned now r
          × (r.vendor ≡ t.vendor)
          × All (λ y. less f y r ≡ false) ranks
    leads ranks [] t ts e p o q = cc
    leads ranks (r ∷ rs) t ts e p o q = (
      r,
      p.0,
      ground arith,
      All-of-sort_by (less f) _ ranks
          (subst (All (λ y. less f y r ≡ false)) (sym e) (not_less_self r, o.0)),
    )

    order_leads :
        (rand : ℕ → Sample) (vs : List Vendor) (t : Target) (ts : List Target)
        → order f rand s sel pinned now vs ≡ t ∷ ts
        → All (Outranks s sel pinned now t.vendor) vs
    unfolding order rank_vendors
    order_leads rand vs t ts e =
        let draws = draw_all f rand 0 vs [] in
        let ranks = rank_from f s sel pinned now draws 0 vs in
        let (r, p, q, h) =
          leads ranks (sort_by (less f) ranks) t ts refl
            (All-sort_by (less f) (IsRanked f s sel pinned now) ranks
              (rank_from-IsRanked f s sel pinned now draws 0 vs))
            (sort_by-IsSorted (less f) (less_asym f) (not_less_trans f) ranks) e in
        subst (λ w. All (Outranks s sel pinned now w) vs) q (All-Outranks r draws 0 vs p h)

  module _ (rand : ℕ → Sample) (snap : Snapshot) (r : Router) (sel : Selector)
      (read_at now : ℕ) where
    -- The vendor that the session's pin names at this request.
    abbrev pub pinned_to : String
    pinned_to = (Affinity.get r.affinity (affinity_key sel) read_at).1

    select_cases :
        (vs : List Vendor) (ts : List Target)
        → (order_candidates f rand r sel read_at now vs).1 ≡ some ts
        → order f rand r.state sel pinned_to now vs ≡ ts
    unfolding order_candidates
    select_cases [] ts e = cc
    select_cases (v ∷ vs) ts e = cc

    -- The candidates of a request are the vendors that its selector matches, in some order: health,
    -- pins, priorities, weights and chance drop none, add none and repeat none.
    pub select-perm :
        (ts : List Target)
        → (select f rand (some snap) r sel read_at now).1 ≡ some ts
        → Perm (map (λ t. t.vendor) ts) (candidates sel snap)
    unfolding select
    select-perm ts e =
        subst (λ l. Perm (map (λ t. t.vendor) l) (candidates sel snap))
          (select_cases (candidates sel snap) ts e)
          (order-perm f rand r.state sel pinned_to now (candidates sel snap))

    -- The first candidate that Select offers a request outranks every vendor that the selector
    -- matches: none is healthier for this request; of those as healthy, the session's pin leads if it
    -- is among them; and of those as healthy and as pinned, none has a better priority.
    pub select_leads :
        (t : Target) (ts : List Target)
        → (select f rand (some snap) r sel read_at now).1 ≡ some (t ∷ ts)
        → All (Outranks r.state sel pinned_to now t.vendor) (candidates sel snap)
    unfolding select
    select_leads t ts e =
        order_leads r.state sel pinned_to now rand (candidates sel snap) t ts
          (select_cases (candidates sel snap) (t ∷ ts) e)

    -- A request is refused a vendor exactly when its selector matches none.
    pub select-none_iff :
        ((select f rand (some snap) r sel read_at now).1 ≡ none) ↔ (candidates sel snap ≡ [])
    unfolding select
    select-none_iff = refused (candidates sel snap)
      where
        refused :
            (vs : List Vendor)
            → ((order_candidates f rand r sel read_at now vs).1 ≡ none) ↔ (vs ≡ [])
        refused [] = (λ _. refl, λ _. refl)
        refused (v ∷ vs) = (λ e. cc, λ e. cc)
