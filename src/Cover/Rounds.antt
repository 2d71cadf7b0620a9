-- ===== src/Cover/Rounds.antt =====
-- backend/internal/store/messagecover.go: that a round loses nothing that was captured.
use songguo.Prelude.{
  ◌≡◌, ◌∙◌, refl, true, false, Option, none, some, [], arith, str_eq, eq_iff, inl, inr, subst, ap,
  Bool-cases,
}
use songguo.Prelude.Map.{Map, lookup, insert}
use songguo.Prelude.Member.{here}
use songguo.Cover.{Shape, Run, is_known, extends, joined, known_round, round}
use songguo.Cover.Order.{IsPrefix, IsHeld, extends-IsPrefix}
use songguo.Cover.Runs.{
  OnBest, IsRun, AllRuns, IsOpen, IsStillOpen, Survives, emit-Mem, joined-IsRun, later-OnBest,
  insert-AllRuns, stays, taken,
}

module _ (open_runs : Map Run) (cur : Shape) (runs : AllRuns cur.agent_id open_runs) where
  -- What the request holds is held in the run that it joins.
  joined-taken :
      (best : Option Shape) (e : Shape)
      → best ≡ some e
      → IsHeld e cur
      → IsStillOpen (insert cur.head (joined best cur) open_runs) e
  joined-taken best e b h = elim (Bool-cases cur.has_raw) [
    | inl y ↦ taken cur.agent_id open_runs runs cur (joined best cur) e cur (simp y refl) h
    | inr n ↦ taken cur.agent_id open_runs runs cur (joined best cur) e e (simp n b) (inl refl)
  ]

  joined-own :
      (best : Option Shape)
      → cur.has_raw ≡ true
      → IsStillOpen (insert cur.head (joined best cur) open_runs) cur
  joined-own best y =
      taken cur.agent_id open_runs runs cur (joined best cur) cur cur (simp y refl) (inl refl)

  begun-AllRuns : AllRuns cur.agent_id (insert cur.head (joined none cur) open_runs)
  begun-AllRuns =
      insert-AllRuns cur.agent_id open_runs runs cur.head (joined none cur)
        (joined-IsRun cur.agent_id none cur refl tt)

  reaches : (r : Run) → IsRun cur.agent_id r → extends r.last cur ≡ true → IsPrefix r.last cur
  reaches r h y = extends-IsPrefix r.last cur y h.last

  known_round-AllRuns :
      (o : Option Run)
      → lookup cur.head open_runs ≡ o
      → AllRuns cur.agent_id (known_round open_runs cur o).open_runs
  known_round-AllRuns none f = begun-AllRuns
  known_round-AllRuns (some r) f = elim (Bool-cases (extends r.last cur)) [
    | inr n ↦ rw n begun-AllRuns
    | inl y ↦
        let h = runs cur.head r f in
        rw y (
          insert-AllRuns cur.agent_id open_runs runs cur.head (joined r.best cur) (
            joined-IsRun cur.agent_id r.best cur refl
              (later-OnBest r.best r.last cur (reaches r h y) h.best)))
  ]

  known_round-own :
      (o : Option Run) → cur.has_raw ≡ true → Survives cur (known_round open_runs cur o)
  known_round-own none y = inr (joined-own none y)
  known_round-own (some r) y = elim (Bool-cases (extends r.last cur)) [
    | inl e ↦ rw e (inr (joined-own r.best y))
    | inr n ↦ rw n (inr (joined-own none y))
  ]

  same_run :
      (r : Run) (e : Shape) (o : IsOpen open_runs e)
      → lookup cur.head open_runs ≡ some r
      → str_eq cur.head o.head ≡ true
      → r ≡ o.run
  same_run r e o f y =
      let g = subst (λ x. lookup x open_runs ≡ some r) ((eq_iff cur.head o.head).0 y) f in
      cc (g, o.found)

  known_round-kept :
      (o : Option Run) (e : Shape)
      → lookup cur.head open_runs ≡ o
      → IsOpen open_runs e
      → Survives e (known_round open_runs cur o)
  known_round-kept o e f k = elim (Bool-cases (str_eq cur.head k.head)) [
    | inr n ↦ other o n
    | inl y ↦ same o f y
  ]
    where
      other :
          (o : Option Run)
          → str_eq cur.head k.head ≡ false
          → Survives e (known_round open_runs cur o)
      other none n = inr (stays cur.agent_id open_runs runs cur (joined none cur) e k n)
      other (some r) n = elim (Bool-cases (extends r.last cur)) [
        | inl y ↦ rw y (inr (stays cur.agent_id open_runs runs cur (joined r.best cur) e k n))
        | inr m ↦ rw m (inr (stays cur.agent_id open_runs runs cur (joined none cur) e k n))
      ]

      same :
          (o : Option Run)
          → lookup cur.head open_runs ≡ o
          → str_eq cur.head k.head ≡ true
          → Survives e (known_round open_runs cur o)
      same none g y =
          let there_is = subst (λ x. lookup x open_runs ≡ none) ((eq_iff cur.head k.head).0 y) g in
          absurd (ground (arith, there_is, k.found))
      same (some r) g y =
          let best = ap (λ (x : Run). x.best) (same_run r e k g y) ∙ k.best in
          let h = runs cur.head r g in
          elim (Bool-cases (extends r.last cur)) [
            | inr n ↦ rw n (inl (emit-Mem r.best e best))
            | inl x ↦
                let held = later-OnBest r.best r.last cur (reaches r h x) h.best in
                rw x
                  (inr (joined-taken r.best e best (subst (OnBest (λ c. IsHeld c cur)) best held)))
          ]

  pub round-AllRuns : AllRuns cur.agent_id (round open_runs cur).open_runs
  unfolding round
  round-AllRuns = elim (Bool-cases (is_known cur)) [
    | inl y ↦ rw y (known_round-AllRuns (lookup cur.head open_runs) refl)
    | inr n ↦ rw n runs
  ]

  pub round-own : cur.has_raw ≡ true → Survives cur (round open_runs cur)
  unfolding round
  round-own y = elim (Bool-cases (is_known cur)) [
    | inl k ↦ rw k (known_round-own (lookup cur.head open_runs) y)
    | inr n ↦ rw n (inl (simp y (here [])))
  ]

  pub round-kept : (e : Shape) → IsOpen open_runs e → Survives e (round open_runs cur)
  unfolding round
  round-kept e o = elim (Bool-cases (is_known cur)) [
    | inl k ↦ rw k (known_round-kept (lookup cur.head open_runs) e refl o)
    | inr n ↦ rw n (inr (record { holder = e; is_open = o; holds = inl refl }))
  ]
