-- ===== src/Manager/Reload/Malformed.antt =====
-- backend/internal/configsvc/manager.go: what one endpoint without an origin does to a reload.
use songguo.Prelude.{◌≡◌, ◌∙◌, refl, true, some, List, eq_iff}
use songguo.Prelude.Member.{Mem}
use songguo.Config.Snapshot.{Snapshot}
use songguo.Manager.{Provider, ProviderEndpoint}
use songguo.Manager.Groups.{origin_of}
use songguo.Manager.Reload.{
  Tools, is_complete, Stored, Outcome, loaded, failed, swapped, Reloaded, build, reload, Failure,
}
use songguo.Manager.Reload.Served.{build-IsServed}

-- An error, and the snapshot that was there before.
pub record IsKept (current : Snapshot) (r : Reloaded) : Type 0 where
  pub same : r.current ≡ current
  pub failure : Failure
  pub reported : r.error ≡ some failure

pub not_loaded :
    (current : Snapshot) (o : Outcome)
    → ((s : Snapshot) → o ≡ loaded s → ⊥)
    → IsKept current (swapped current o)
not_loaded current (failed f) h = record { same = refl; failure = f; reported = refl }
not_loaded current (loaded s) h = absurd (h s refl)

-- One endpoint of an enabled provider whose URL does not parse to a scheme and a host stops every
-- reload: whatever the other providers are, the error is reported and the old snapshot stays.
pub reload-IsKept :
    (tools : Tools) (current : Snapshot) (st : Stored) (pvds : List Provider) (pvd : Provider)
    (ep : ProviderEndpoint)
    → st.providers ≡ some pvds
    → Mem pvd pvds
    → is_complete pvd ≡ true
    → Mem ep pvd.endpoints
    → tools.is_wire ep.wire ≡ true
    → origin_of tools.urls ep.endpoint ≡ ""
    → IsKept current (reload tools current st)
unfolding reload
reload-IsKept tools current st pvds pvd ep q p c m w o = not_loaded current (build tools st) (λ s e.
    let k = build-IsServed tools st s pvds pvd ep q p c m w e in
    let rootless : k.server.origin ≡ "" = k.serves.origin ∙ o in
    cc ((eq_iff k.server.origin "").1 rootless, k.sound.rooted))
