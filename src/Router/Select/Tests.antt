-- ===== src/Router/Select/Tests.antt =====
-- A choice between three vendors.
use songguo.Prelude.{
  ℕ, ◌/◌, ◌≡◌, refl, Bool, true, false, ◌&&◌, not, none, some, List, [], ◌∷◌, String, arith, ltb,
  map, Perm, All,
}
use songguo.Prelude.Int.{ℤ, pos}
use songguo.Prelude.Map.{lookup, insert, get_or}
use songguo.Prelude.Sort.{sort_by, insert_by}
use songguo.Config.{Vendor}
use songguo.Config.Snapshot.{Snapshot}
use songguo.Router.Affinity
use songguo.Router.Health.{Knobs}
use songguo.Router.Health.Attempts.{State}
use songguo.Router.Options.{Options}
use songguo.Router.Select.{Floats, Router, Selector, Target, scope_all, candidates, select}
use songguo.Router.Select.Choice.{Outranks, pinned_to, select-perm, select_leads}

-- Draws as whole numbers, with infinity: enough to run the router.
data Draw : Type 0 where
  finite : ℕ → Draw
  infinite : Draw

draw_lt : Draw → Draw → Bool
draw_lt (finite a) (finite b) = ltb a b
draw_lt (finite a) infinite = true
draw_lt infinite b = false

abbrev draw_eq : Draw → Draw → Bool
draw_eq x y = not (draw_lt x y) && not (draw_lt y x)

draw_lt_asym : (x y : Draw) → draw_lt x y ≡ true → draw_lt y x ≡ false
unfolding draw_lt
draw_lt_asym x y h = ground arith

draw_ge_trans : (x y z : Draw) → draw_lt y x ≡ false → draw_lt z y ≡ false → draw_lt z x ≡ false
unfolding draw_lt
draw_ge_trans x y z h k = ground arith

draw_finite : (u w : ℕ) → draw_lt (finite (u / w)) infinite ≡ true
unfolding draw_lt
draw_finite u w = refl

abbrev draws : Floats
draws = record {
  Float = Draw;
  Sample = ℕ;
  lt = draw_lt;
  eq = draw_eq;
  inf = infinite;
  race = λ u w. finite (u / w);
  eq_lem = λ x y. refl;
  lt_asym = draw_lt_asym;
  ge_trans = draw_ge_trans;
  race_finite = draw_finite;
}

abbrev vendor : String → ℤ → Vendor
vendor name priority = record {
  name = name;
  origin = "https://a.example";
  adapter = "openai-compatible";
  served_models = "m" ∷ [];
  priority = priority;
  weight = pos 1;
  model_routes = [];
  credential = record { id = name; api_key = "secret" };
  proxy = none;
  prices = [];
  wires = [];
  endpoints = [];
  allow_unmatched = false;
  max_concurrency = pos 0;
  quirks = [];
}

abbrev three : Snapshot
three = record {
  vendors = vendor "a" (pos 2) ∷ vendor "b" (pos 1) ∷ vendor "c" (pos 1) ∷ [];
  by_name = [];
  by_model = [];
}

abbrev router : Router
router = record {
  knobs = record {
    fail_threshold = 3;
    client_fail_threshold = 10;
    client_fail_max = 15;
    cooldown = 30;
    cooldown_max = 900;
    dead_after = 5;
    model_cooldown = 60;
  };
  affinity = record { ttl = 30; max = 9; entries = []; next_sweep = 100 };
  state = record {
    health =
        (
          "b",
          record {
            consec_fail = 3;
            open_until = 50;
            demotions = 1;
            dead = false;
            client_fails = [];
          },
        )
        ∷ [];
    model_cooling = [];
  };
}

abbrev anything : Selector
anything = record { scope = scope_all; model = ""; provider_id = ""; session = "" }

abbrev samples : ℕ → ℕ
samples i = 7

-- "b" is cooling, so "c" leads; "a" has the worse priority.
abbrev answer : List Target
answer =
    record { vendor = vendor "c" (pos 1); credential = record { id = "c"; api_key = "secret" } }
    ∷ record { vendor = vendor "a" (pos 2); credential = record { id = "a"; api_key = "secret" } }
    ∷ record { vendor = vendor "b" (pos 1); credential = record { id = "b"; api_key = "secret" } }
    ∷ []

answered : (select draws samples (some three) router anything 10 10).1 ≡ some answer
unfolding select songguo.Router.Select.less songguo.Router.Select.order draw_lt lookup insert get_or
    sort_by insert_by songguo.Router.Health.Attempts.health_rank
    songguo.Router.Health.Attempts.model_is_cooling Affinity.get
answered = refl

select-perm_example : Perm (map (λ t. t.vendor) answer) (candidates anything three)
select-perm_example = select-perm draws samples three router anything 10 10 answer answered

select_leads_example :
    All
      (Outranks draws router.state anything
        (pinned_to draws samples three router anything 10 10)
        10
        (vendor "c" (pos 1)))
      (candidates anything three)
select_leads_example =
    select_leads draws samples three router anything 10 10
      (record { vendor = vendor "c" (pos 1); credential = record { id = "c"; api_key = "secret" } })
      (record { vendor = vendor "a" (pos 2); credential = record { id = "a"; api_key = "secret" } }
        ∷ record {
          vendor = vendor "b" (pos 1);
          credential = record { id = "b"; api_key = "secret" };
        }
        ∷ [])
      answered

abbrev unset : Options
unset = record {
  fail_threshold = pos 0;
  client_fail_threshold = pos 0;
  cooldown = pos 0;
  cooldown_max = pos 0;
  dead_after = pos 0;
  model_cooldown = pos 0;
  sticky_ttl = pos 0;
  sticky_max = pos 0;
}
