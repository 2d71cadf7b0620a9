-- ===== src/Proxy/Admission.antt =====
-- backend/internal/proxy/proxy.go: which providers a request may reach.
use songguo.Prelude.{◌≡◌, true, false, List, [], ◌∷◌, String}
use songguo.Proxy.{User, Effect, dial, Request}
use songguo.Proxy.Serve.{World, is_exhausted}
use songguo.Proxy.Scope.{InScope}

-- What a dial takes: budget left, the rate limit's consent, a slot and the scope.
pub record IsPermitted (w : World) (u : User) (r : Request) (vendor : String) : Type 0 where
  pub affordable : is_exhausted u w ≡ false
  pub within_rate : w.allowed ≡ true
  pub has_slot : w.acquired ≡ true
  pub in_scope : InScope u r vendor

-- Every dial is of such a provider.
abbrev pub EveryDial : (String → Type 0) → List Effect → Type 0
EveryDial P [] = Unit
EveryDial P (dial vendor ∷ es) = P vendor × EveryDial P es
EveryDial P (e ∷ es) = EveryDial P es

record DialsOnly (P : String → Type 0) (es : List Effect) : Type 0 where
  each : EveryDial P es
