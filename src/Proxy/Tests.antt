-- ===== src/Proxy/Tests.antt =====
-- A request of a scoped user that names no model, over two providers.
use songguo.Prelude.{
  ℕ, ◌≡◌, refl, Bool, true, false, Option, none, some, List, [], ◌∷◌, String, ◌≤◌, arith,
}
use songguo.Prelude.Int.{pos}
use songguo.Router.Health.{TransportError, Signal, ok, neutral}
use songguo.Router.Select.{Target, scope_all}
use songguo.Proxy.{
  User, found, Row, Effect, respond, create_row, charge, finalize, save_body, save_composition,
  acquire, release, dial, relay, report, pin_session, Request,
}
use songguo.Proxy.Resolve.{Wire}
use songguo.Proxy.Forward.{Response, client_left, plain_error, attempt_of}
use songguo.Proxy.Serve.{World, failed, answered, after_dial, serve}
use songguo.Proxy.Accounts.{IsAccounted, serve-IsAccounted}
use songguo.Proxy.Blamed.{is_blaming, hangup_blames}

abbrev target : String → Target
target name = record {
  vendor = record {
    name = name;
    origin = "https://a.example";
    adapter = "openai-compatible";
    served_models = [];
    priority = pos 1;
    weight = pos 1;
    model_routes = [];
    credential = record { id = name; api_key = "secret" };
    proxy = none;
    prices = [];
    wires = "openai/chat" ∷ [];
    endpoints = [];
    allow_unmatched = false;
    max_concurrency = pos 0;
    quirks = [];
  };
  credential = record { id = name; api_key = "secret" };
}

abbrev user : User
user = record { id = "u"; budget = some (pos 100); scope = "b" ∷ []; capture = true }

abbrev request : Request
request = record {
  key = "sg-1";
  is_websocket = false;
  body_read = true;
  model = "";
  provider = "";
  resource_id = "";
  session = "s";
  method = "POST";
  path = "/v1/chat/completions";
}

abbrev chat : Wire
chat = record { name = "openai/chat"; is_chat = true; zero_cost = false }

abbrev reply : Response
reply = record {
  status = 200;
  stream = true;
  body_end = client_left;
  completed = true;
  stream_error = "";
  price = some (pos 7);
  composed = true;
}

abbrev world : World
world = record {
  users = found user;
  select = λ sel. some (target "a" ∷ target "b" ∷ []);
  match = λ wires. some chat;
  sheds_capture = false;
  sheds_capture_later = true;
  allows_analysis = true;
  spent = some (pos 99);
  allowed = true;
  acquired = true;
  built = true;
  reply = answered reply;
  gone = false;
}

abbrev reset : TransportError
reset = record plain_error { refused = true }

abbrev row : Row
row = record {
  user = "u";
  model = "";
  vendor = "b";
  credential = "b";
  status = pos 200;
  err = "";
  cost = pos 7;
}

-- The provider out of scope is passed over; the stream had ended before its client left.
served : serve world request ≡ (
    create_row "u"
    ∷ save_body
    ∷ acquire "b"
    ∷ dial "b"
    ∷ relay 200
    ∷ charge "u" (pos 7)
    ∷ finalize row
    ∷ save_composition
    ∷ report (attempt_of request (target "b")) ok
    ∷ pin_session (record { scope = scope_all; model = ""; provider_id = ""; session = "s" }) "b"
    ∷ release "b"
    ∷ [])
unfolding serve songguo.Router.Health.classify songguo.Proxy.Resolve.resolve
    songguo.Prelude.Map.lookup songguo.Prelude.Map.insert
served = refl

serve-IsAccounted_example : IsAccounted (serve world request)
serve-IsAccounted_example = serve-IsAccounted world request

hangup_blames_example :
    (row : Row) × (after_dial
        (record world { gone = true })
        true
        user
        request
        (target "b")
        (some chat)
        (failed "context canceled" reset)
      ≡ report (attempt_of request (target "b")) neutral
        ∷ respond 502 "upstream_error"
        ∷ charge row.user row.cost
        ∷ finalize row
        ∷ [])
    × (is_blaming row ≡ true)
hangup_blames_example =
    hangup_blames (record world { gone = true }) true user request (target "b") (some chat)
      "context canceled" reset refl
