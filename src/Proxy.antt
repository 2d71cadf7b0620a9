-- ===== src/Proxy.antt =====
-- backend/internal/proxy/proxy.go: the life of one HTTP request. `serve` gives the calls that a
-- request makes of the other parts, in order; what these and the client answer is an argument.
pub mod Resolve
pub mod Forward
pub mod Serve
pub mod Refusals
pub mod Tally
pub mod Held
pub mod Accounts
pub mod Scope
pub mod Admission
pub mod Texts
pub mod Blamed
pub mod Tests
use Prim.Native.String.{◌++◌ as str_append}
use songguo.Prelude.{
  ℕ, Bool, true, false, ◌&&◌, not, Option, none, some, List, [], ◌∷◌, ◌++◌, String, if◌then◌else◌,
  str_eq,
}
use songguo.Prelude.Int.{ℤ, pos, leb_ℤ}
use songguo.Router.Health.{Signal, TransportError, classify}
use songguo.Router.Health.Attempts.{Attempt}
use songguo.Router.Select.{Selector, Target}

-- The fields of `store.User` that a request reads.
pub record User : Type 0 where
  pub id : String
  pub budget : Option ℤ
  pub scope : List String
  pub capture : Bool

-- What `GetUserByKey` answers.
pub data UserLookup : Type 0 where
  found : User → UserLookup
  not_found : UserLookup
  lookup_failed : UserLookup

-- A row of the call log, as it is finalized: what tells whom it charges and whom it blames. `Cost` is a whole number of a small unit of money.
pub record Row : Type 0 where
  pub user : String
  pub model : String
  pub vendor : String
  pub credential : String
  pub status : ℤ
  pub err : String
  pub cost : ℤ

-- The calls of other parts, and what is written to the client.
pub data Effect : Type 0 where
  respond : ℕ → String → Effect
  upgrade : Effect
  create_row : String → Effect
  charge : String → ℤ → Effect
  finalize : Row → Effect
  save_body : Effect
  save_composition : Effect
  acquire : String → Effect
  release : String → Effect
  dial : String → Effect
  relay : ℕ → Effect
  report : Attempt → Signal → Effect
  pin_session : Selector → String → Effect

abbrev pub if_any : Bool → Effect → List Effect
if_any b e = elim b [ true ↦ e ∷ [] | false ↦ [] ]

-- `denyCapture`. A row that names no error of its own takes the reason.
unfoldable pub deny : Bool → Row → ℕ → String → List Effect
deny capture row status reason =
    respond status reason
    ∷ charge row.user row.cost
    ∷ finalize
        (record row { status = pos status; err = if str_eq row.err "" then reason else row.err })
    ∷ if_any capture save_body

-- What the request is: the key of `clientKey`, whether it is a WebSocket handshake and whether its
-- body could be read, then what `resolve` reads of it: the model in the body, the headers
-- `X-Songguo-Provider` and `X-Api-Resource-Id`, the session of `extractAttribution`, the method and
-- the path.
pub record Request : Type 0 where
  pub key : String
  pub is_websocket : Bool
  pub body_read : Bool
  pub model : String
  pub provider : String
  pub resource_id : String
  pub session : String
  pub method : String
  pub path : String

-- `billingModel`
abbrev pub billing_model : Request → String
billing_model r = if str_eq r.model "" then r.resource_id else r.model
