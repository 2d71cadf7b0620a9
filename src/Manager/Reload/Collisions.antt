-- ===== src/Manager/Reload/Collisions.antt =====
-- backend/internal/configsvc/manager.go: what two providers with vendors of one name do to a reload.
use songguo.Prelude.{
  ◌≡◌, ◌∙◌, sym, true, Option, none, some, List, [], ◌∷◌, String, inl, inr, Bool-cases, subst,
  eq_iff,
}
use songguo.Prelude.Map.{Map}
use songguo.Prelude.Member.{Mem}
use songguo.Config.{Proxy}
use songguo.Config.Snapshot.{Snapshot}
use songguo.Config.Snapshot.Names.{IsDistinct, IsDistinct-append, IsDistinct-right}
use songguo.Config.Validate as Validate
use songguo.Config.Validate.Names.{build-IsDistinct}
use songguo.Manager.{Provider}
use songguo.Manager.Prices.{Listed}
use songguo.Manager.Table.{PriceSources}
use songguo.Manager.Reload.{
  Tools, vendors_from_provider, proxies_by_id, is_complete, Assembled, missing_proxy, assembled,
  proxy_of, joined_to, assemble, Stored, loaded, finished, feed_or_empty, build_read, build, reload,
}
use songguo.Manager.Reload.Served.{result-built}
use songguo.Manager.Reload.Malformed.{IsKept, not_loaded}
use songguo.Manager.Reload.Named.{
  provider_names, vendors_from_provider-named, HasNamed, assemble-HasNamed,
}

-- A provider that stands before another.
pub data Precedes (p q : Provider) : List Provider → Type 0 where
  now : (pvds : List Provider) → Mem q pvds → Precedes p q (p ∷ pvds)
  later : (x : Provider) (pvds : List Provider) → Precedes p q pvds → Precedes p q (x ∷ pvds)

-- Two vendors of what was assembled, if nothing went wrong, share a name.
abbrev Clashes : Assembled → Type 0
Clashes (missing_proxy p) = Unit
Clashes (assembled vs) = IsDistinct vs → ⊥

module _ (tools : Tools) (src : PriceSources) (name : String) where
  joined_to-Clashes :
      (pvd : Provider) (rest : Assembled) (o : Option (Option Proxy))
      → Mem name (provider_names tools pvd)
      → HasNamed name rest
      → Clashes (joined_to tools src pvd rest o)
  joined_to-Clashes pvd rest none m k = tt
  joined_to-Clashes pvd (missing_proxy p) (some proxy) m k = tt
  joined_to-Clashes pvd (assembled ws) (some proxy) m k = λ d.
      let v = vendors_from_provider-named tools src pvd proxy name m in
      let apart =
        IsDistinct-append v.vendor k.vendor (vendors_from_provider tools src pvd proxy) ws d
          v.member k.member in
      cc (apart, (eq_iff v.vendor.name k.vendor.name).1 (v.named ∙ sym k.named))

  joined_to-rest-Clashes :
      (pvd : Provider) (rest : Assembled) (o : Option (Option Proxy))
      → Clashes rest
      → Clashes (joined_to tools src pvd rest o)
  joined_to-rest-Clashes pvd rest none k = tt
  joined_to-rest-Clashes pvd (missing_proxy p) (some proxy) k = tt
  joined_to-rest-Clashes pvd (assembled ws) (some proxy) k =
      λ d. k (IsDistinct-right (vendors_from_provider tools src pvd proxy) ws d)

  assemble-Clashes :
      (p q : Provider) (proxies : Map Proxy) (pvds : List Provider)
      → Precedes p q pvds
      → is_complete p ≡ true
      → is_complete q ≡ true
      → Mem name (provider_names tools p)
      → Mem name (provider_names tools q)
      → Clashes (assemble tools src proxies pvds)
  unfolding assemble
  assemble-Clashes p q proxies _ (now pvds m) c d a b = rw c (
      joined_to-Clashes p (assemble tools src proxies pvds) (proxy_of proxies p.proxy_id) a
        (assemble-HasNamed tools src name proxies pvds q m d b))
  assemble-Clashes p q proxies _ (later x pvds m) c d a b =
      let k = assemble-Clashes p q proxies pvds m c d a b in
      elim (Bool-cases (is_complete x)) [
        | inl y ↦ rw y (
            joined_to-rest-Clashes x (assemble tools src proxies pvds) (proxy_of proxies x.proxy_id)
              k)
        | inr o ↦ rw o k
      ]

finished-Clashes :
    (tools : Tools) (a : Assembled) (s : Snapshot)
    → Clashes a
    → finished tools.urls a ≡ loaded s
    → ⊥
finished-Clashes tools (missing_proxy name) s k e = cc e
finished-Clashes tools (assembled vs) s k e =
    k (build-IsDistinct tools.urls vs s (result-built (Validate.build tools.urls vs) s e))

module _ (tools : Tools) (p q : Provider) (name : String) (c : is_complete p ≡ true)
    (d : is_complete q ≡ true) (a : Mem name (provider_names tools p))
    (b : Mem name (provider_names tools q)) where
  read-Clashes :
      (pvds : List Provider) (s : Snapshot) (proxies : Option (List Proxy))
      (catalog pinned feed : Option Listed)
      → Precedes p q pvds
      → build_read tools (some pvds) proxies catalog pinned feed ≡ loaded s
      → ⊥
  read-Clashes pvds s none catalog pinned feed o e = cc e
  read-Clashes pvds s (some ps) none pinned feed o e = cc e
  read-Clashes pvds s (some ps) (some cat) none feed o e = cc e
  read-Clashes pvds s (some ps) (some cat) (some pins) feed o e =
      let src : PriceSources = record { feed = feed_or_empty feed; catalog = cat; pinned = pins } in
      finished-Clashes tools (assemble tools src (proxies_by_id ps []) pvds) s
        (assemble-Clashes tools src name p q (proxies_by_id ps []) pvds o c d a b) e

-- Two complete providers whose vendors share a name stop every reload: an error is reported
-- and the old snapshot stays.
pub reload-collision :
    (tools : Tools) (current : Snapshot) (st : Stored) (pvds : List Provider) (p q : Provider)
    (name : String)
    → st.providers ≡ some pvds
    → Precedes p q pvds
    → is_complete p ≡ true
    → is_complete q ≡ true
    → Mem name (provider_names tools p)
    → Mem name (provider_names tools q)
    → IsKept current (reload tools current st)
unfolding reload build
reload-collision tools current st pvds p q name e o c d a b =
    not_loaded current (build tools st) (λ s l.
      read-Clashes tools p q name c d a b pvds s st.proxies st.catalog st.pinned st.feed o
        (subst (λ x. build_read tools x st.proxies st.catalog st.pinned st.feed ≡ loaded s) e l))
