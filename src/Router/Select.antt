-- ===== src/Router/Select.antt =====
-- backend/internal/router/router.go: the ordered candidates of a request.
-- What `math` computes on floats is a parameter.
pub mod Order
pub mod Choice
pub mod Tests
use Prim.Native.String.{◌++◌ as str_append}
use songguo.Prelude.{
  ℕ, suc, ◌+◌, ◌*◌, Bool, true, false, ◌||◌, ◌&&◌, not, Option, none, some, List, [], ◌∷◌, String,
  ltb, leb, ◌==◌, if◌then◌else◌, str_eq, map, ◌≡◌,
}
use songguo.Prelude.Int.{ℤ, pos, ltb_ℤ, leb_ℤ, eqb_ℤ, pos_part}
use songguo.Prelude.Map.{Map, lookup, insert, get_or}
use songguo.Prelude.Sort.{sort_by}
use songguo.Prelude.Time.{second, minute}
use songguo.Config.{Credential, Vendor}
use songguo.Config.Snapshot.{Snapshot, vendors_for_model}
use songguo.Router.Options.{Options, or_default, new_knobs}
use songguo.Router.Affinity.{Affinity}
use songguo.Router.Affinity
use songguo.Router.Health.{Knobs}
use songguo.Router.Health.Attempts.{
  State, Tier, live, cooling, tier_rank, health_rank, model_is_cooling,
}

pub record Router : Type 0 where
  pub knobs : Knobs
  pub affinity : Affinity
  pub state : State

-- `New`
pub new : Options → ℕ → Router
new o now = record {
  knobs = new_knobs o;
  affinity =
      Affinity.new now (or_default o.sticky_ttl (30 * minute)) (or_default o.sticky_max 50_000);
  state = record { health = []; model_cooling = [] };
}

pub data Scope : Type 0 where
  scope_all scope_model scope_provider : Scope

pub record Selector : Type 0 where
  pub scope : Scope
  pub model : String
  pub provider_id : String
  pub session : String

-- `scopeKey` and `affinityKey`
scope_key : Scope → Selector → String
scope_key scope_all sel = ""
scope_key scope_model sel = sel.model
scope_key scope_provider sel = sel.provider_id

pub affinity_key : Selector → String
unfolding scope_key
affinity_key sel =
    if str_eq sel.session ""
    then ""
    else str_append sel.session (str_append "\0" (scope_key sel.scope sel))

-- A vendor of the pinned provider, with the route of the request's model where there is one.
provider_vendor : Selector → Vendor → Option Vendor
provider_vendor sel v =
    if str_eq sel.model "" then some v else elim (lookup sel.model v.model_routes) [
      | none ↦ some v
      | some r ↦
          if r.enabled then some (record v { priority = r.priority; weight = r.weight }) else none
    ]

pub provider_vendors : Selector → List Vendor → List Vendor
unfolding provider_vendor
provider_vendors sel [] = []
provider_vendors sel (v ∷ vs) =
    let rest = provider_vendors sel vs in
    if str_eq v.credential.id sel.provider_id
    then elim (provider_vendor sel v) [ none ↦ rest | some w ↦ w ∷ rest ]
    else rest

matching : Scope → Selector → Snapshot → List Vendor
matching scope_all sel snap = snap.vendors
matching scope_model sel snap = vendors_for_model snap sel.model
matching scope_provider sel snap = provider_vendors sel snap.vendors

-- The vendors that a selector matches.
pub candidates : Selector → Snapshot → List Vendor
unfolding matching
candidates sel snap = matching sel.scope sel snap

-- float64 without NaN, and `-math.Log(1-u)/float64(w)` at a positive weight.
pub record Floats : Type 1 where
  pub Float : Type 0
  pub Sample : Type 0
  pub lt : Float → Float → Bool
  pub eq : Float → Float → Bool
  pub inf : Float
  pub race : Sample → ℕ → Float
  pub eq_lem : (x y : Float) → eq x y ≡ (not (lt x y) && not (lt y x))
  pub lt_asym : (x y : Float) → lt x y ≡ true → lt y x ≡ false
  pub ge_trans : (x y z : Float) → lt y x ≡ false → lt z y ≡ false → lt z x ≡ false
  pub race_finite : (u : Sample) (w : ℕ) → lt (race u w) inf ≡ true

pub record Target : Type 0 where
  pub vendor : Vendor
  pub credential : Credential

module _ (f : Floats) where
  open f use {Float, Sample, lt, eq, inf, race}

  -- `weightedDraw`
  pub weighted_draw : Sample → ℤ → Float
  weighted_draw u weight = if leb_ℤ weight (pos 0) then inf else race u (pos_part weight)

  -- `draws`: one sample for each credential, in the order in which they first occur.
  pub draw_all : (ℕ → Sample) → ℕ → List Vendor → Map Float → Map Float
  unfolding weighted_draw
  draw_all rand i [] draws = draws
  draw_all rand i (v ∷ vs) draws = elim (lookup v.credential.id draws) [
    | some _ ↦ draw_all rand i vs draws
    | none ↦
        draw_all rand (i + 1) vs (insert v.credential.id (weighted_draw (rand i) v.weight) draws)
  ]

  pub record RankedVendor : Type 0 where
    pub vendor : Vendor
    pub sticky : ℕ
    pub health : ℕ
    pub priority : ℤ
    pub draw : Float
    pub decl : ℕ

  abbrev bool_rank : Bool → ℕ
  bool_rank true = 0
  bool_rank false = 1

  -- The health rank of a vendor for one request: a live one whose model is cooling counts as cooling.
  pub request_rank : State → String → String → ℕ → ℕ
  request_rank s vendor model now =
      let hr = tier_rank (health_rank s vendor now) in
      if hr == 0 && model_is_cooling s vendor model now then 1 else hr

  pub rank_vendor : State → Selector → String → ℕ → Map Float → ℕ → Vendor → RankedVendor
  unfolding request_rank
  rank_vendor s sel pinned now draws i v = record {
    vendor = v;
    sticky = bool_rank (str_eq v.name pinned);
    health = request_rank s v.name sel.model now;
    priority = v.priority;
    draw = get_or v.credential.id inf draws;
    decl = i;
  }

  pub rank_from : State → Selector → String → ℕ → Map Float → ℕ → List Vendor → List RankedVendor
  unfolding rank_vendor
  rank_from s sel pinned now draws i [] = []
  rank_from s sel pinned now draws i (v ∷ vs) =
      rank_vendor s sel pinned now draws i v ∷ rank_from s sel pinned now draws (i + 1) vs

  -- `rankVendors`
  pub rank_vendors : (ℕ → Sample) → State → Selector → String → ℕ → List Vendor → List RankedVendor
  unfolding rank_from draw_all
  rank_vendors rand s sel pinned now vs = rank_from s sel pinned now (draw_all rand 0 vs []) 0 vs

  -- The comparison of `order`'s sort.
  pub less : RankedVendor → RankedVendor → Bool
  less x y =
      if not (x.health == y.health)
      then ltb x.health y.health
      else if not (x.sticky == y.sticky)
      then ltb x.sticky y.sticky
      else if not (eqb_ℤ x.priority y.priority)
      then ltb_ℤ x.priority y.priority
      else if not (eq x.draw y.draw)
      then lt x.draw y.draw
      else ltb x.decl y.decl

  abbrev target_of : RankedVendor → Target
  target_of r = record { vendor = r.vendor; credential = r.vendor.credential }

  -- `order`, with the pin already read.
  pub order : (ℕ → Sample) → State → Selector → String → ℕ → List Vendor → List Target
  unfolding rank_vendors less
  order rand s sel pinned now vs =
      map target_of (sort_by less (rank_vendors rand s sel pinned now vs))

  order_candidates :
      (ℕ → Sample) → Router → Selector → ℕ → ℕ → List Vendor → Router × Option (List Target)
  unfolding order
  order_candidates rand r sel read_at now [] = (r, none)
  order_candidates rand r sel read_at now (v ∷ vs) =
      let (a, pinned) = Affinity.get r.affinity (affinity_key sel) read_at in
      (record r { affinity = a }, some (order rand r.state sel pinned now (v ∷ vs)))

  -- `Select`; `none` is `ErrNoVendor`. The clock is read once for the pin and once for the ranks.
  pub select :
      (ℕ → Sample) → Option Snapshot → Router → Selector → ℕ → ℕ → Router × Option (List Target)
  unfolding order_candidates candidates affinity_key
  select rand snap r sel read_at now = elim snap [
    | none ↦ (r, none)
    | some s ↦ order_candidates rand r sel read_at now (candidates sel s)
  ]

-- `Pin`
pub pin : Router → Selector → String → ℕ → Router
unfolding affinity_key
pin r sel vendor now =
    if str_eq (affinity_key sel) "" || str_eq vendor ""
    then r
    else record r { affinity = Affinity.set r.affinity (affinity_key sel) vendor now }
