-- ===== src/Proxy/Forward.antt =====
-- backend/internal/proxy/proxy.go: what follows the answer of the provider.
use Prim.Native.String.{◌++◌ as str_append}
use songguo.Prelude.{
  ℕ, Bool, true, false, ◌&&◌, ◌||◌, not, Option, none, some, List, [], ◌∷◌, ◌++◌, String,
  if◌then◌else◌, str_eq,
}
use songguo.Prelude.Int.{ℤ, pos}
use songguo.Router.Health.{TransportError, classify}
use songguo.Router.Health.Attempts.{Attempt}
use songguo.Router.Select.{Target}
use songguo.Proxy.{
  Effect, relay, charge, finalize, save_composition, save_body, report, pin_session, if_any, User,
  Row, Request, billing_model,
}
use songguo.Proxy.Resolve.{Wire, selector}

-- How the relay of a body ends: cleanly, because the client left (`errClientGone`), or with another
-- error, of which its text is kept and what `Classify` asks of it.
pub data BodyEnd : Type 0 where
  clean : BodyEnd
  client_left : BodyEnd
  broke : String → TransportError → BodyEnd

-- What `errors.New` makes is no error of the transport.
abbrev pub plain_error : TransportError
plain_error = record {
  canceled = false;
  refused = false;
  dns = none;
  certificate = false;
  unknown_authority = false;
  hostname = false;
}

-- The answer of a provider, and what its relay and the wire's extractor and scanner say of it:
-- `completed` is `StreamCompleted`, `stream_error` is `StreamError`, `price` is the cost that the
-- vendor's price table gives, if it has one, and `composed` whether there is a composition to save.
pub record Response : Type 0 where
  pub status : ℕ
  pub stream : Bool
  pub body_end : BodyEnd
  pub completed : Bool
  pub stream_error : String
  pub price : Option ℤ
  pub composed : Bool

-- `bodyErr` after the relay: a terminal event of a stream outweighs what came after it, and an error
-- event fills a silence.
unfoldable pub body_err : Response → BodyEnd
body_err resp =
    if not resp.stream
    then resp.body_end
    else let relayed = if resp.completed then clean else resp.body_end in
      elim relayed [
        | clean ↦ if str_eq resp.stream_error "" then clean else broke resp.stream_error plain_error
        | client_left ↦ client_left
        | broke text e ↦ broke text e
      ]

-- `streamCompleted`
abbrev pub stream_completed : Response → Bool
stream_completed resp = resp.stream && resp.completed

-- `relayErr`
unfoldable pub relay_err : BodyEnd → String
relay_err clean = ""
relay_err client_left = "client_gone"
relay_err (broke text e) = str_append "stream_error: " text

-- `upstreamBodyErr`
unfoldable pub upstream_body_err : BodyEnd → Option TransportError
upstream_body_err clean = none
upstream_body_err client_left = none
upstream_body_err (broke text e) = some e

abbrev pub is_client_left : BodyEnd → Bool
is_client_left client_left = true
is_client_left _ = false

-- `clientGone` of the deferred report; `gone` tells whether the request's context is done.
abbrev pub client_gone : Bool → Response → Bool
client_gone gone resp = not (stream_completed resp) && (gone || is_client_left (body_err resp))

-- `cost`
abbrev pub cost_of : Option Wire → Response → ℤ
cost_of wire resp = elim wire [
  | none ↦ pos 0
  | some w ↦ if w.zero_cost then pos 0 else elim resp.price [ none ↦ pos 0 | some c ↦ c ]
]

-- `analyze`: a matched chat, where `Analysis` allows it.
abbrev pub analyzes : Option Wire → Bool → Bool
analyzes wire allowed = elim wire [ none ↦ false | some w ↦ w.is_chat && allowed ]

abbrev pub forwarded_row : User → Request → Target → Option Wire → Response → Row
forwarded_row u r t wire resp = record {
  user = u.id;
  model = billing_model r;
  vendor = t.vendor.name;
  credential = t.credential.id;
  status = pos resp.status;
  err = relay_err (body_err resp);
  cost = cost_of wire resp;
}

abbrev pub attempt_of : Request → Target → Attempt
attempt_of r t = record {
  vendor = t.vendor.name;
  credential = t.credential.id;
  model = billing_model r;
  session = r.session;
}

-- `forward`: `capture` is the decision at its end, `allowed` what `Analysis` answers.
unfoldable pub forward :
    User → Request → Target → Option Wire → Bool → Bool → Bool → Response → List Effect
unfolding body_err upstream_body_err relay_err selector
forward u r t wire capture allowed gone resp =
    let row = forwarded_row u r t wire resp in
    relay resp.status
    ∷ charge row.user row.cost
    ∷ finalize row
    ∷ (if_any (analyzes wire allowed && resp.composed) save_composition
        ++ (if_any capture save_body
            ++ report (attempt_of r t)
                (classify resp.status (upstream_body_err (body_err resp)) (client_gone gone resp))
              ∷ pin_session (selector r) t.vendor.name
              ∷ []))
