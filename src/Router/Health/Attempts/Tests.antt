-- ===== src/Router/Health/Attempts/Tests.antt =====
-- Vendors that fail, at the default knobs.
use songguo.Prelude.{
  ℕ, suc, ◌+◌, ◌*◌, ◌^◌, ◌≤◌, ◌<◌, ◌≡◌, ◌≢◌, refl, inl, inr, true, false, none, some, List, [], ◌∷◌,
  String, arith, eq_iff, min, map, length,
}
use songguo.Prelude.Time.{second, minute}
use songguo.Config.{Vendor}
use songguo.Config.Snapshot.{Snapshot}
use songguo.Router.Health.{
  Signal, ok, fail_client, Knobs, fail_credential, fail_hard, next_cooldown, unreported, is_seen,
}
use songguo.Router.Health.Attempts.{State, Attempt, live, health_rank, report_attempt, concerned}
use songguo.Router.Health.Ladder.{IsValid, next_cooldown_lem}
use songguo.Router.Health.Clients.{
  AfterClients, sessions_in, run_client_fails, run_client_fails_lem,
}
use songguo.Router.Health.Attempts.Rank.{credential_down}
use songguo.Router.Health.Attempts.Watched.{Report, run_reports, untold}
use songguo.Router.Health.Attempts.History.{AllSound, run_reports-AllSound}

abbrev knobs : Knobs
knobs = record {
  fail_threshold = 3;
  client_fail_threshold = 10;
  client_fail_max = 15;
  cooldown = 30 * second;
  cooldown_max = 15 * minute;
  dead_after = 5;
  model_cooldown = minute;
}

knobs-IsValid : IsValid knobs
knobs-IsValid = omega arith

abbrev vendor : String → Vendor
vendor name = record {
  name = name;
  origin = "https://a.example";
  adapter = "openai-compatible";
  served_models = "m" ∷ [];
  priority = songguo.Prelude.Int.ℤ.pos 0;
  weight = songguo.Prelude.Int.ℤ.pos 1;
  model_routes = [];
  credential = record { id = "key"; api_key = "secret" };
  proxy = none;
  prices = [];
  wires = [];
  endpoints = [];
  allow_unmatched = false;
  max_concurrency = songguo.Prelude.Int.ℤ.pos 0;
  quirks = [];
}

abbrev twins : Snapshot
twins = record { vendors = vendor "a" ∷ vendor "b" ∷ []; by_name = []; by_model = [] }

abbrev nothing : State
nothing = record { health = []; model_cooling = [] }

abbrev attempt : Attempt
attempt = record { vendor = "a"; credential = "key"; model = "m"; session = "s" }

a_named : ◌≢◌ {A = String} "a" ""
a_named = ground (arith, eq_iff "a" "")

key_named : ◌≢◌ {A = String} "key" ""
key_named = ground (arith, eq_iff "key" "")

next_cooldown_example : next_cooldown knobs 3 ≡ min (30 * second * 2 ^ 2) (15 * minute)
next_cooldown_example = next_cooldown_lem knobs 2 knobs-IsValid

abbrev clients : List (String × ℕ)
clients = ("s", 1) ∷ ("t", 2) ∷ ("s", 3) ∷ []

run_client_fails_example :
    AfterClients knobs (sessions_in clients) (run_client_fails knobs unreported clients)
run_client_fails_example = run_client_fails_lem knobs clients knobs-IsValid

credential_down_example :
    health_rank (report_attempt knobs (some twins) nothing attempt fail_credential 5).0 "b" 9 ≢ live
credential_down_example =
    credential_down knobs twins nothing attempt (vendor "b") 5 9 knobs-IsValid a_named key_named
      (inr (inl refl)) refl (omega arith)

abbrev report_of : Signal → Report
report_of sig = record { snap = some twins; attempt = attempt; signal = sig; now = 5 }

-- A rejection in a session, a conclusive failure, a success and the rejection again.
abbrev told : List Report
told = report_of fail_client ∷ report_of fail_hard ∷ report_of ok ∷ report_of fail_client ∷ []

run_reports-AllSound_example : AllSound knobs (run_reports knobs untold told)
run_reports-AllSound_example = run_reports-AllSound knobs knobs-IsValid told

b_apart : is_seen "b" (concerned (some twins) attempt fail_hard) ≡ false
unfolding concerned
b_apart = refl
