-- ===== src/Cover/Complete.antt =====
-- backend/internal/store/messagecover.go: that every captured conversation is covered.
use songguo.Prelude.{
  ◌≡◌, refl, true, some, List, [], ◌∷◌, ◌++◌, String, str_eq, eq_iff, inl, inr, subst,
  if◌then◌else◌, Bool-cases,
}
use songguo.Prelude.Map.{Map, lookup}
use songguo.Prelude.Sort.{Mem-sort_by}
use songguo.Prelude.Member.{Mem, here, there, Mem-left, Mem-right}
use songguo.Cover.{
  Shape, Run, Round, emit, close_all, round, walk, walked, message_cover, is_earlier,
}
use songguo.Cover.Order.{IsHeld, IsHeld-trans}
use songguo.Cover.Runs.{AllRuns, IsOpen, Survives, emit-Mem}
use songguo.Cover.Rounds.{round-AllRuns, round-own, round-kept}

-- One of some requests holds the conversation of a request.
pub record IsCovered (c : Shape) (out : List Shape) : Type 0 where
  pub by : Shape
  pub member : Mem by out
  pub holds : IsHeld c by

close_all-Mem : (open_runs : Map Run) (e : Shape) → IsOpen open_runs e → Mem e (close_all open_runs)
unfolding close_all lookup
close_all-Mem open_runs e o = from open_runs o.found
  where
    from : (m : Map Run) → lookup o.head m ≡ some o.run → Mem e (close_all m)
    from [] f = cc f
    from ((k, r) ∷ m) f = elim (Bool-cases (str_eq k o.head)) [
      | inl y ↦
          let first : some r ≡ some o.run = rw y at f in
          Mem-left e (emit r.best) (close_all m) (emit-Mem r.best e (cc (first, o.best)))
      | inr n ↦ Mem-right e (emit r.best) (close_all m) (from m (rw n at f))
    ]

no_runs : (agent : String) → AllRuns agent []
unfolding lookup
no_runs agent head r f = cc f

abbrev after_agent : String → Map Run → Shape → Map Run
after_agent agent open_runs cur = if str_eq agent cur.agent_id then open_runs else []

after_agent-AllRuns :
    (agent : String) (open_runs : Map Run) (cur : Shape)
    → AllRuns agent open_runs
    → AllRuns cur.agent_id (after_agent agent open_runs cur)
after_agent-AllRuns agent open_runs cur h = elim (Bool-cases (str_eq agent cur.agent_id)) [
  | inl y ↦ rw y (subst (λ a. AllRuns a open_runs) ((eq_iff agent cur.agent_id).0 y) h)
  | inr n ↦ rw n (no_runs cur.agent_id)
]

IsCovered-right : (c : Shape) (xs ys : List Shape) → IsCovered c ys → IsCovered c (xs ++ ys)
IsCovered-right c xs ys k = record {
  by = k.by;
  member = Mem-right k.by xs ys k.member;
  holds = k.holds;
}

-- What survives a round, where what the open runs hold is covered later.
survivor :
    (c : Shape) (r : Round) (out : List Shape)
    → ((e : Shape) → IsOpen r.open_runs e → IsCovered e out)
    → Survives c r
    → IsCovered c (r.emitted ++ out)
survivor c r out later (inl m) = record {
  by = c;
  member = Mem-left c r.emitted out m;
  holds = inl refl;
}
survivor c r out later (inr o) =
    let k = later o.holder o.is_open in
    IsCovered-right c r.emitted out (record {
      by = k.by;
      member = k.member;
      holds = IsHeld-trans c o.holder k.by o.holds k.holds;
    })

walk_kept :
    (agent : String) (open_runs : Map Run) (shapes : List Shape) (e : Shape)
    → AllRuns agent open_runs
    → IsOpen open_runs e
    → IsCovered e (walk agent open_runs shapes)
unfolding walk
walk_kept agent open_runs [] e h o = record {
  by = e;
  member = close_all-Mem open_runs e o;
  holds = inl refl;
}
walk_kept agent open_runs (cur ∷ shapes) e h o = elim (Bool-cases (str_eq agent cur.agent_id)) [
  | inl y ↦
      let runs = subst (λ a. AllRuns a open_runs) ((eq_iff agent cur.agent_id).0 y) h in
      let r = round open_runs cur in
      rw y (
        survivor e r (walk cur.agent_id r.open_runs shapes)
          (λ c k. walk_kept cur.agent_id r.open_runs shapes c (round-AllRuns open_runs cur runs) k)
          (round-kept open_runs cur runs e o))
  | inr n ↦
      let r = round [] cur in
      rw n (record {
        by = e;
        member =
            Mem-left e (close_all open_runs) (r.emitted ++ walk cur.agent_id r.open_runs shapes)
              (close_all-Mem open_runs e o);
        holds = inl refl;
      })
]

walk_own :
    (agent : String) (open_runs : Map Run) (shapes : List Shape) (c : Shape)
    → AllRuns agent open_runs
    → Mem c shapes
    → c.has_raw ≡ true
    → IsCovered c (walk agent open_runs shapes)
unfolding walk
walk_own agent open_runs [] c h m raw = elim m [ ]
walk_own agent open_runs (_ ∷ shapes) c h (here _) raw =
    let runs = after_agent-AllRuns agent open_runs c h in
    let before = after_agent agent open_runs c in
    let r = round before c in
    IsCovered-right c (if str_eq agent c.agent_id then [] else close_all open_runs) _ (
      survivor c r (walk c.agent_id r.open_runs shapes)
        (λ e k. walk_kept c.agent_id r.open_runs shapes e (round-AllRuns before c runs) k)
        (round-own before c runs raw))
walk_own agent open_runs (cur ∷ shapes) c h (there _ _ m) raw =
    let runs = after_agent-AllRuns agent open_runs cur h in
    let r = round (after_agent agent open_runs cur) cur in
    let later =
      walk_own cur.agent_id r.open_runs shapes c
        (round-AllRuns (after_agent agent open_runs cur) cur runs) m raw in
    IsCovered-right c (if str_eq agent cur.agent_id then [] else close_all open_runs) _
      (IsCovered-right c r.emitted (walk cur.agent_id r.open_runs shapes) later)

walked_own :
    (shapes : List Shape) (c : Shape)
    → Mem c shapes
    → c.has_raw ≡ true
    → IsCovered c (walked shapes)
walked_own [] c m raw = elim m [ ]
walked_own (cur ∷ shapes) c m raw =
    walk_own cur.agent_id [] (cur ∷ shapes) c (no_runs cur.agent_id) m raw

-- Every request of a session whose body was captured is covered: the request itself is chosen, or one
-- of the same agent that starts with the same message, reaches at least as far, and is the same
-- throughout if it reaches just as far. A request without a fingerprint is itself chosen.
pub message_cover-IsCovered :
    (shapes : List Shape) (c : Shape)
    → Mem c shapes
    → c.has_raw ≡ true
    → IsCovered c (message_cover shapes)
unfolding message_cover
message_cover-IsCovered shapes c m raw =
    let k = walked_own shapes c m raw in
    record {
      by = k.by;
      member = Mem-sort_by is_earlier k.by (walked shapes) k.member;
      holds = k.holds;
    }
