-- ===== src/Manager/Reload/Served.antt =====
-- backend/internal/configsvc/manager.go: that a loaded configuration serves every stored endpoint.
use songguo.Prelude.{
  ◌≡◌, ◌∙◌, sym, subst, true, Option, none, some, List, [], ◌∷◌, ◌++◌, map, inl, inr, Bool-cases,
}
use songguo.Prelude.Map.{Map}
use songguo.Prelude.Member.{Mem, here, there, Mem-left, Mem-right}
use songguo.Prelude.Sort.{Mem-sort_by}
use songguo.Config.{Vendor, Proxy}
use songguo.Config.Snapshot.{Snapshot, normalize_vendor, vendor}
use songguo.Config.Snapshot.Defaults.{normalize_vendor-IsKept, Mem-normalize}
use songguo.Config.Validate.{Result, refused, built}
use songguo.Config.Validate as Validate
use songguo.Config.Validate.Names.{build-vendor}
use songguo.Config.Validate.Servable.{IsServable, build-IsServable}
use songguo.Manager.{Provider, ProviderEndpoint}
use songguo.Manager.Prices.{Listed}
use songguo.Manager.Table.{PriceSources, prices_of}
use songguo.Manager.Groups.{origin_of, group_endpoints, group_less}
use songguo.Manager.Groups.Coverage.{group_endpoints-own, vendors_of_groups-Mem}
use songguo.Manager.Reload.{
  Tools, vendors_from_provider, is_complete, Assembled, missing_proxy, assembled, proxy_of,
  joined_to, assemble, Stored, loaded, outcome_of_result, finished, build_read, build,
  feed_or_empty, proxies_by_id,
}

Mem-map :
    (e : ProviderEndpoint) (es : List ProviderEndpoint)
    → Mem e es
    → Mem e.wire (map (λ x. x.wire) es)
Mem-map e _ (here es) = here (map (λ x. x.wire) es)
Mem-map e _ (there x es m) = there x.wire (map (λ y. y.wire) es) (Mem-map e es m)

-- A vendor with an endpoint's origin and wire.
pub record Serves (tools : Tools) (ep : ProviderEndpoint) (v : Vendor) : Type 0 where
  pub origin : v.origin ≡ origin_of tools.urls ep.endpoint
  pub wire : Mem ep.wire v.wires

pub record IsOffered (tools : Tools) (ep : ProviderEndpoint) (vs : List Vendor) : Type 0 where
  pub vendor : Vendor
  pub member : Mem vendor vs
  pub serves : Serves tools ep vendor

vendors_from_provider-IsOffered :
    (tools : Tools) (src : PriceSources) (pvd : Provider) (proxy : Option Proxy)
    (ep : ProviderEndpoint)
    → Mem ep pvd.endpoints
    → tools.is_wire ep.wire ≡ true
    → IsOffered tools ep (vendors_from_provider tools src pvd proxy)
unfolding vendors_from_provider
vendors_from_provider-IsOffered tools src pvd proxy ep m w =
    let groups = group_endpoints tools.is_wire tools.urls pvd.endpoints [] in
    let k = group_endpoints-own tools.is_wire tools.urls ep pvd.endpoints [] m w in
    let v =
      vendors_of_groups-Mem tools.numbered pvd proxy (prices_of tools.texts src tools.max_sane pvd)
        [] _ k.group (Mem-sort_by group_less k.group groups k.member) in
    record {
      vendor = v.vendor;
      member = v.member;
      serves = record {
        origin = v.origin ∙ k.holds.origin;
        wire = subst (Mem ep.wire) (sym v.wires) (Mem-map ep k.group.endpoints k.holds.member);
      };
    }

IsOffered-left :
    (tools : Tools) (ep : ProviderEndpoint) (xs ys : List Vendor)
    → IsOffered tools ep xs
    → IsOffered tools ep (xs ++ ys)
IsOffered-left tools ep xs ys k = record {
  vendor = k.vendor;
  member = Mem-left k.vendor xs ys k.member;
  serves = k.serves;
}

IsOffered-right :
    (tools : Tools) (ep : ProviderEndpoint) (xs ys : List Vendor)
    → IsOffered tools ep ys
    → IsOffered tools ep (xs ++ ys)
IsOffered-right tools ep xs ys k = record {
  vendor = k.vendor;
  member = Mem-right k.vendor xs ys k.member;
  serves = k.serves;
}

-- What was assembled, if nothing went wrong, offers an endpoint.
abbrev Offers : Tools → ProviderEndpoint → Assembled → Type 0
Offers tools ep (missing_proxy name) = Unit
Offers tools ep (assembled vs) = IsOffered tools ep vs

module _ (tools : Tools) (src : PriceSources) (ep : ProviderEndpoint) where
  joined_to-own :
      (pvd : Provider) (rest : Assembled) (o : Option (Option Proxy))
      → Mem ep pvd.endpoints
      → tools.is_wire ep.wire ≡ true
      → Offers tools ep (joined_to tools src pvd rest o)
  joined_to-own pvd rest none m w = tt
  joined_to-own pvd (missing_proxy name) (some proxy) m w = tt
  joined_to-own pvd (assembled ws) (some proxy) m w =
      IsOffered-left tools ep (vendors_from_provider tools src pvd proxy) ws
        (vendors_from_provider-IsOffered tools src pvd proxy ep m w)

  joined_to-rest :
      (pvd : Provider) (rest : Assembled) (o : Option (Option Proxy))
      → Offers tools ep rest
      → Offers tools ep (joined_to tools src pvd rest o)
  joined_to-rest pvd rest none k = tt
  joined_to-rest pvd (missing_proxy name) (some proxy) k = tt
  joined_to-rest pvd (assembled ws) (some proxy) k =
      IsOffered-right tools ep (vendors_from_provider tools src pvd proxy) ws k

  assemble-Offers :
      (proxies : Map Proxy) (pvds : List Provider) (pvd : Provider)
      → Mem pvd pvds
      → is_complete pvd ≡ true
      → Mem ep pvd.endpoints
      → tools.is_wire ep.wire ≡ true
      → Offers tools ep (assemble tools src proxies pvds)
  unfolding assemble
  assemble-Offers proxies [] pvd p c m w = elim p [ ]
  assemble-Offers proxies (_ ∷ pvds) pvd (here _) c m w =
      rw c (joined_to-own pvd (assemble tools src proxies pvds) (proxy_of proxies pvd.proxy_id) m w)
  assemble-Offers proxies (x ∷ pvds) pvd (there _ _ p) c m w =
      let k = assemble-Offers proxies pvds pvd p c m w in
      elim (Bool-cases (is_complete x)) [
        | inl y ↦
            rw y
              (joined_to-rest x (assemble tools src proxies pvds) (proxy_of proxies x.proxy_id) k)
        | inr n ↦ rw n k
      ]

-- A vendor of a snapshot that is found by its name, was found sound and serves an endpoint.
pub record IsServed (tools : Tools) (ep : ProviderEndpoint) (s : Snapshot) : Type 0 where
  pub server : Vendor
  pub found : vendor s server.name ≡ some server
  pub sound : IsServable tools.urls server
  pub serves : Serves tools ep server

pub result-built : (r : Result) (s : Snapshot) → outcome_of_result r ≡ loaded s → r ≡ built s
result-built (refused ps) s e = cc e
result-built (built t) s e = cc e

-- The vendor of the snapshot is that of the configuration with the defaults.
offered-IsServed :
    (tools : Tools) (ep : ProviderEndpoint) (vs : List Vendor) (s : Snapshot)
    → IsOffered tools ep vs
    → Validate.build tools.urls vs ≡ built s
    → IsServed tools ep s
offered-IsServed tools ep vs s k e =
    let kept = normalize_vendor-IsKept k.vendor in
    let m = Mem-normalize k.vendor vs k.member in
    record {
      server = normalize_vendor k.vendor;
      found = build-vendor tools.urls vs s (normalize_vendor k.vendor) e m;
      sound = build-IsServable tools.urls vs s (normalize_vendor k.vendor) e m;
      serves = record {
        origin = kept.origin ∙ k.serves.origin;
        wire = kept.wires ep.wire k.serves.wire;
      };
    }

finished-IsServed :
    (tools : Tools) (ep : ProviderEndpoint) (a : Assembled) (s : Snapshot)
    → Offers tools ep a
    → finished tools.urls a ≡ loaded s
    → IsServed tools ep s
finished-IsServed tools ep (missing_proxy name) s k e = cc e
finished-IsServed tools ep (assembled vs) s k e =
    offered-IsServed tools ep vs s k (result-built (Validate.build tools.urls vs) s e)

read-IsServed :
    (tools : Tools) (ep : ProviderEndpoint) (pvd : Provider) (pvds : List Provider) (s : Snapshot)
    (proxies : Option (List Proxy)) (catalog pinned feed : Option Listed)
    → Mem pvd pvds
    → is_complete pvd ≡ true
    → Mem ep pvd.endpoints
    → tools.is_wire ep.wire ≡ true
    → build_read tools (some pvds) proxies catalog pinned feed ≡ loaded s
    → IsServed tools ep s
read-IsServed tools ep pvd pvds s none catalog pinned feed p c m w e = cc e
read-IsServed tools ep pvd pvds s (some ps) none pinned feed p c m w e = cc e
read-IsServed tools ep pvd pvds s (some ps) (some cat) none feed p c m w e = cc e
read-IsServed tools ep pvd pvds s (some ps) (some cat) (some pins) feed p c m w e =
    let src : PriceSources = record { feed = feed_or_empty feed; catalog = cat; pinned = pins } in
    finished-IsServed tools ep (assemble tools src (proxies_by_id ps []) pvds) s
      (assemble-Offers tools src ep (proxies_by_id ps []) pvds pvd p c m w) e

-- When a configuration is loaded, every endpoint of a provider that is enabled, with a key and models,
-- and whose wire is registered, is served by a vendor with that wire and the endpoint's origin; the
-- snapshot finds the vendor by its name, and validation found nothing wrong with it.
pub build-IsServed :
    (tools : Tools) (st : Stored) (s : Snapshot) (pvds : List Provider) (pvd : Provider)
    (ep : ProviderEndpoint)
    → st.providers ≡ some pvds
    → Mem pvd pvds
    → is_complete pvd ≡ true
    → Mem ep pvd.endpoints
    → tools.is_wire ep.wire ≡ true
    → build tools st ≡ loaded s
    → IsServed tools ep s
unfolding build
build-IsServed tools st s pvds pvd ep q p c m w e =
    read-IsServed tools ep pvd pvds s st.proxies st.catalog st.pinned st.feed p c m w
      (subst (λ o. build_read tools o st.proxies st.catalog st.pinned st.feed ≡ loaded s) q e)
