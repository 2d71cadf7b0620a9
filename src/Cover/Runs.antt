-- ===== src/Cover/Runs.antt =====
-- backend/internal/store/messagecover.go: one round of the walk.
use songguo.Prelude.{
  ◌≡◌, ◌⊎◌, ◌∙◌, refl, true, false, Option, none, some, [], String, str_eq, eq_iff, inl, inr, subst,
  sym, Bool-cases,
}
use songguo.Prelude.Map.{Map, lookup, insert, lookup-insert}
use songguo.Prelude.Member.{Mem, here}
use songguo.Cover.{Shape, Run, Round, emit, joined}
use songguo.Cover.Order.{IsPrefix, IsHeld, IsHeld-trans}

-- What holds of what is there.
abbrev pub OnBest : (Shape → Type 0) → Option Shape → Type 0
OnBest P none = Unit
OnBest P (some e) = P e

-- The best member of a run is held by the last.
pub record IsRun (agent : String) (r : Run) : Type 0 where
  pub last : r.last.agent_id ≡ agent
  pub best : OnBest (λ e. IsHeld e r.last) r.best

abbrev pub AllRuns : String → Map Run → Type 0
AllRuns agent open_runs = (head : String) (r : Run) → lookup head open_runs ≡ some r → IsRun agent r

-- The best member of an open run.
pub record IsOpen (open_runs : Map Run) (e : Shape) : Type 0 where
  pub head : String
  pub run : Run
  pub found : lookup head open_runs ≡ some run
  pub best : run.best ≡ some e

-- What a round does not lose: it emits it, or leaves a run open that holds it.
pub record IsStillOpen (open_runs : Map Run) (c : Shape) : Type 0 where
  pub holder : Shape
  pub is_open : IsOpen open_runs holder
  pub holds : IsHeld c holder

abbrev pub Survives : Shape → Round → Type 0
Survives c r = Mem c r.emitted ⊎ IsStillOpen r.open_runs c

pub emit-Mem : (best : Option Shape) (e : Shape) → best ≡ some e → Mem e (emit best)
emit-Mem best e h = subst (λ b. Mem e (emit b)) (sym h) (here [])

-- A run that the request joins, or begins.
pub joined-IsRun :
    (agent : String) (best : Option Shape) (cur : Shape)
    → cur.agent_id ≡ agent
    → OnBest (λ e. IsHeld e cur) best
    → IsRun agent (joined best cur)
joined-IsRun agent best cur a h = elim (Bool-cases cur.has_raw) [
  | inl y ↦ record { last = a; best = simp y (inl refl) }
  | inr n ↦ record { last = a; best = simp n h }
]

pub later-OnBest :
    (best : Option Shape) (last cur : Shape)
    → IsPrefix last cur
    → OnBest (λ e. IsHeld e last) best
    → OnBest (λ e. IsHeld e cur) best
later-OnBest none last cur p h = tt
later-OnBest (some e) last cur p h = IsHeld-trans e last cur h (inr p)

module _ (agent : String) (open_runs : Map Run) (runs : AllRuns agent open_runs) where
  found_inserted :
      (head other : String) (run : Run)
      → str_eq head other ≡ true
      → lookup other (insert head run open_runs) ≡ some run
  found_inserted head other run y = lookup-insert head other run open_runs ∙ rw y refl

  found_other :
      (head other : String) (run : Run)
      → str_eq head other ≡ false
      → lookup other (insert head run open_runs) ≡ lookup other open_runs
  found_other head other run n = lookup-insert head other run open_runs ∙ rw n refl

  pub insert-AllRuns :
      (head : String) (run : Run) → IsRun agent run → AllRuns agent (insert head run open_runs)
  insert-AllRuns head run h other r f = elim (Bool-cases (str_eq head other)) [
    | inl y ↦ subst (λ (o : Option Run). OnRun o) (sym (found_inserted head other run y) ∙ f) h
    | inr n ↦ runs other r (sym (found_other head other run n) ∙ f)
  ]
    where
      OnRun : Option Run → Type 0
      OnRun none = Unit
      OnRun (some x) = IsRun agent x

  -- An open run of another head stays.
  pub stays :
      (cur : Shape) (run : Run) (e : Shape) (o : IsOpen open_runs e)
      → str_eq cur.head o.head ≡ false
      → IsStillOpen (insert cur.head run open_runs) e
  stays cur run e o n = record {
    holder = e;
    is_open = record {
      head = o.head;
      run = o.run;
      found = found_other cur.head o.head run n ∙ o.found;
      best = o.best;
    };
    holds = inl refl;
  }

  -- The run that is put in its place holds what it holds.
  pub taken :
      (cur : Shape) (run : Run) (e holder : Shape)
      → run.best ≡ some holder
      → IsHeld e holder
      → IsStillOpen (insert cur.head run open_runs) e
  taken cur run e holder b h = record {
    holder = holder;
    is_open = record {
      head = cur.head;
      run = run;
      found = found_inserted cur.head cur.head run ((eq_iff cur.head cur.head).1 refl);
      best = b;
    };
    holds = h;
  }
