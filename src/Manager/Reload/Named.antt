-- ===== src/Manager/Reload/Named.antt =====
-- backend/internal/configsvc/manager.go: the names of what a provider adds.
use songguo.Prelude.{
  ◌≡◌, refl, true, Option, none, some, List, [], ◌∷◌, String, ℕ, inl, inr, Bool-cases,
}
use songguo.Prelude.Map.{Map}
use songguo.Prelude.Member.{Mem, here, there, Mem-left, Mem-right}
use songguo.Prelude.Sort.{sort_by}
use songguo.Config.{Vendor, Proxy, Price}
use songguo.Manager.{Provider}
use songguo.Manager.Table.{PriceSources, prices_of}
use songguo.Manager.Groups.{
  Group, group_endpoints, group_less, group_name, vendor_of_group, vendors_of_groups,
}
use songguo.Manager.Reload.{
  Tools, vendors_from_provider, is_complete, Assembled, missing_proxy, assembled, proxy_of,
  joined_to, assemble,
}

-- The names that the vendors of a provider's groups have.
unfoldable pub group_names : (String → ℕ → String) → String → List String → List Group → List String
group_names numbered provider used [] = []
group_names numbered provider used (g ∷ gs) =
    let name = group_name numbered provider used g.adapter in
    name ∷ group_names numbered provider (name ∷ used) gs

abbrev pub provider_names : Tools → Provider → List String
provider_names tools pvd =
    group_names tools.numbered pvd.name []
      (sort_by group_less (group_endpoints tools.is_wire tools.urls pvd.endpoints []))

pub record IsVendorNamed (name : String) (vs : List Vendor) : Type 0 where
  pub vendor : Vendor
  pub member : Mem vendor vs
  pub named : vendor.name ≡ name

vendors_of_groups-named :
    (numbered : String → ℕ → String) (pvd : Provider) (proxy : Option Proxy) (prices : Map Price)
    (used : List String) (gs : List Group) (name : String)
    → Mem name (group_names numbered pvd.name used gs)
    → IsVendorNamed name (vendors_of_groups numbered pvd proxy prices used gs)
unfolding group_names vendors_of_groups vendor_of_group
vendors_of_groups-named numbered pvd proxy prices used [] name m = elim m [ ]
vendors_of_groups-named numbered pvd proxy prices used (g ∷ gs) _ (here _) =
    let name = group_name numbered pvd.name used g.adapter in
    record {
      vendor = vendor_of_group pvd proxy prices name g;
      member = here (vendors_of_groups numbered pvd proxy prices (name ∷ used) gs);
      named = refl;
    }
vendors_of_groups-named numbered pvd proxy prices used (g ∷ gs) name (there _ _ m) =
    let own = group_name numbered pvd.name used g.adapter in
    let k = vendors_of_groups-named numbered pvd proxy prices (own ∷ used) gs name m in
    record { vendor = k.vendor; member = there _ _ k.member; named = k.named }

pub vendors_from_provider-named :
    (tools : Tools) (src : PriceSources) (pvd : Provider) (proxy : Option Proxy) (name : String)
    → Mem name (provider_names tools pvd)
    → IsVendorNamed name (vendors_from_provider tools src pvd proxy)
unfolding vendors_from_provider
vendors_from_provider-named tools src pvd proxy name m =
    vendors_of_groups-named tools.numbered pvd proxy (prices_of tools.texts src tools.max_sane pvd)
      [] (sort_by group_less (group_endpoints tools.is_wire tools.urls pvd.endpoints [])) name m

-- What was assembled, if nothing went wrong, has a vendor of a name.
abbrev pub HasNamed : String → Assembled → Type 0
HasNamed name (missing_proxy p) = Unit
HasNamed name (assembled vs) = IsVendorNamed name vs

module _ (tools : Tools) (src : PriceSources) (name : String) where
  joined_to-HasNamed :
      (pvd : Provider) (rest : Assembled) (o : Option (Option Proxy))
      → Mem name (provider_names tools pvd)
      → HasNamed name (joined_to tools src pvd rest o)
  joined_to-HasNamed pvd rest none m = tt
  joined_to-HasNamed pvd (missing_proxy p) (some proxy) m = tt
  joined_to-HasNamed pvd (assembled ws) (some proxy) m =
      let k = vendors_from_provider-named tools src pvd proxy name m in
      record { vendor = k.vendor; member = Mem-left k.vendor _ ws k.member; named = k.named }

  joined_to-rest-HasNamed :
      (pvd : Provider) (rest : Assembled) (o : Option (Option Proxy))
      → HasNamed name rest
      → HasNamed name (joined_to tools src pvd rest o)
  joined_to-rest-HasNamed pvd rest none k = tt
  joined_to-rest-HasNamed pvd (missing_proxy p) (some proxy) k = tt
  joined_to-rest-HasNamed pvd (assembled ws) (some proxy) k = record {
    vendor = k.vendor;
    member = Mem-right k.vendor (vendors_from_provider tools src pvd proxy) ws k.member;
    named = k.named;
  }

  pub assemble-HasNamed :
      (proxies : Map Proxy) (pvds : List Provider) (q : Provider)
      → Mem q pvds
      → is_complete q ≡ true
      → Mem name (provider_names tools q)
      → HasNamed name (assemble tools src proxies pvds)
  unfolding assemble
  assemble-HasNamed proxies [] q m c n = elim m [ ]
  assemble-HasNamed proxies (_ ∷ pvds) q (here _) c n =
      rw c (joined_to-HasNamed q (assemble tools src proxies pvds) (proxy_of proxies q.proxy_id) n)
  assemble-HasNamed proxies (x ∷ pvds) q (there _ _ m) c n =
      let k = assemble-HasNamed proxies pvds q m c n in
      elim (Bool-cases (is_complete x)) [
        | inl y ↦ rw y (
            joined_to-rest-HasNamed x (assemble tools src proxies pvds)
              (proxy_of proxies x.proxy_id) k)
        | inr o ↦ rw o k
      ]
