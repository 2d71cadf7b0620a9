-- ===== src/Manager/Groups/Coverage.antt =====
-- backend/internal/configsvc/manager.go: that every endpoint of a provider is in one of its vendors.
use songguo.Prelude.{
  ℕ, ◌≡◌, refl, Bool, true, Option, List, [], ◌∷◌, ◌++◌, map, String, arith, inl, inr,
  if◌then◌else◌, eq_iff, Bool-cases,
}
use songguo.Prelude.Map.{Map}
use songguo.Prelude.Member.{Mem, here, there, Mem-left, Mem-last}
use songguo.Config.{Vendor, Proxy, Price}
use songguo.Config.Validate.{Urls}
use songguo.Manager.{Provider, ProviderEndpoint}
use songguo.Manager.Groups.{
  Group, is_group, add_endpoint, group_endpoints, origin_of, group_name, vendor_of_group,
  vendors_of_groups,
}

-- A group holds an endpoint under its key.
pub record Holds (at : String) (ep : ProviderEndpoint) (g : Group) : Type 0 where
  pub origin : g.origin ≡ at
  pub adapter : g.adapter ≡ ep.adapter
  pub member : Mem ep g.endpoints

pub record IsGrouped (origin : String) (ep : ProviderEndpoint) (gs : List Group) : Type 0 where
  pub group : Group
  pub member : Mem group gs
  pub holds : Holds origin ep group

IsGrouped-there :
    (origin : String) (ep : ProviderEndpoint) (g : Group) (gs : List Group)
    → IsGrouped origin ep gs
    → IsGrouped origin ep (g ∷ gs)
IsGrouped-there origin ep g gs k = record {
  group = k.group;
  member = there g gs k.member;
  holds = k.holds;
}

-- A group with one more endpoint.
abbrev with_endpoint : Group → ProviderEndpoint → Group
with_endpoint g ep = record g { endpoints = g.endpoints ++ ep ∷ [] }

Holds-with_endpoint :
    (origin : String) (e ep : ProviderEndpoint) (g : Group)
    → Holds origin e g
    → Holds origin e (with_endpoint g ep)
Holds-with_endpoint origin e ep g k = record {
  origin = k.origin;
  adapter = k.adapter;
  member = Mem-left e g.endpoints (ep ∷ []) k.member;
}

add_endpoint-own :
    (origin : String) (ep : ProviderEndpoint) (gs : List Group)
    → IsGrouped origin ep (add_endpoint origin ep gs)
unfolding add_endpoint
add_endpoint-own origin ep [] = record {
  group = record { origin = origin; adapter = ep.adapter; endpoints = ep ∷ [] };
  member = here [];
  holds = record { origin = refl; adapter = refl; member = here [] };
}
add_endpoint-own origin ep (g ∷ gs) = elim (Bool-cases (is_group origin ep.adapter g)) [
  | inl y ↦ rw y (record {
    group = with_endpoint g ep;
    member = here gs;
    holds = record {
      origin = ground (arith, y, eq_iff g.origin origin);
      adapter = ground (arith, y, eq_iff g.adapter ep.adapter);
      member = Mem-last ep g.endpoints;
    };
  })
  | inr n ↦
      rw n (IsGrouped-there origin ep g (add_endpoint origin ep gs) (add_endpoint-own origin ep gs))
]

add_endpoint-kept :
    (at : String) (e : ProviderEndpoint) (origin : String) (ep : ProviderEndpoint) (gs : List Group)
    (h : Group)
    → Mem h gs
    → Holds at e h
    → IsGrouped at e (add_endpoint origin ep gs)
unfolding add_endpoint
add_endpoint-kept at e origin ep [] h m k = elim m [ ]
add_endpoint-kept at e origin ep (_ ∷ gs) h (here _) k =
    elim (Bool-cases (is_group origin ep.adapter h)) [
      | inl y ↦ rw y (record {
        group = with_endpoint h ep;
        member = here gs;
        holds = Holds-with_endpoint at e ep h k;
      })
      | inr n ↦ rw n (record { group = h; member = here (add_endpoint origin ep gs); holds = k })
    ]
add_endpoint-kept at e origin ep (g ∷ gs) h (there _ _ m) k =
    elim (Bool-cases (is_group origin ep.adapter g)) [
      | inl y ↦ rw y (record { group = h; member = there (with_endpoint g ep) gs m; holds = k })
      | inr n ↦ rw n (
          IsGrouped-there at e g (add_endpoint origin ep gs)
            (add_endpoint-kept at e origin ep gs h m k))
    ]

module _ (is_wire : String → Bool) (urls : Urls) where
  group_endpoints-kept :
      (at : String) (e : ProviderEndpoint) (eps : List ProviderEndpoint) (gs : List Group)
      → IsGrouped at e gs
      → IsGrouped at e (group_endpoints is_wire urls eps gs)
  unfolding group_endpoints
  group_endpoints-kept at e [] gs k = k
  group_endpoints-kept at e (ep ∷ eps) gs k = elim (Bool-cases (is_wire ep.wire)) [
    | inl y ↦ rw y (
        group_endpoints-kept at e eps (add_endpoint (origin_of urls ep.endpoint) ep gs)
          (add_endpoint-kept at e (origin_of urls ep.endpoint) ep gs k.group k.member k.holds))
    | inr n ↦ rw n (group_endpoints-kept at e eps gs k)
  ]

  pub group_endpoints-own :
      (e : ProviderEndpoint) (eps : List ProviderEndpoint) (gs : List Group)
      → Mem e eps
      → is_wire e.wire ≡ true
      → IsGrouped (origin_of urls e.endpoint) e (group_endpoints is_wire urls eps gs)
  unfolding group_endpoints
  group_endpoints-own e [] gs m w = elim m [ ]
  group_endpoints-own e (_ ∷ eps) gs (here _) w = rw w (
      group_endpoints-kept (origin_of urls e.endpoint) e eps
        (add_endpoint (origin_of urls e.endpoint) e gs)
        (add_endpoint-own (origin_of urls e.endpoint) e gs))
  group_endpoints-own e (ep ∷ eps) gs (there _ _ m) w =
      group_endpoints-own e eps
        (if is_wire ep.wire then add_endpoint (origin_of urls ep.endpoint) ep gs else gs) m w

-- A vendor of a group.
pub record IsVendorOf (pvd : Provider) (g : Group) (vs : List Vendor) : Type 0 where
  pub vendor : Vendor
  pub member : Mem vendor vs
  pub origin : vendor.origin ≡ g.origin
  pub wires : vendor.wires ≡ map (λ e. e.wire) g.endpoints
  pub credential : (vendor.credential).id ≡ pvd.id

pub vendors_of_groups-Mem :
    (numbered : String → ℕ → String) (pvd : Provider) (proxy : Option Proxy) (prices : Map Price)
    (used : List String) (gs : List Group) (g : Group)
    → Mem g gs
    → IsVendorOf pvd g (vendors_of_groups numbered pvd proxy prices used gs)
unfolding vendors_of_groups vendor_of_group
vendors_of_groups-Mem numbered pvd proxy prices used [] g m = elim m [ ]
vendors_of_groups-Mem numbered pvd proxy prices used (_ ∷ gs) g (here _) =
    let name = group_name numbered pvd.name used g.adapter in
    record {
      vendor = vendor_of_group pvd proxy prices name g;
      member = here (vendors_of_groups numbered pvd proxy prices (name ∷ used) gs);
      origin = refl;
      wires = refl;
      credential = refl;
    }
vendors_of_groups-Mem numbered pvd proxy prices used (h ∷ gs) g (there _ _ m) =
    let name = group_name numbered pvd.name used h.adapter in
    let k = vendors_of_groups-Mem numbered pvd proxy prices (name ∷ used) gs g m in
    record {
      vendor = k.vendor;
      member = there _ _ k.member;
      origin = k.origin;
      wires = k.wires;
      credential = k.credential;
    }
