-- ===== src/Cover/Sources.antt =====
-- backend/internal/store/messagecover.go: that only what was captured is chosen.
use songguo.Prelude.{
  ◌≡◌, true, Option, none, some, List, [], ◌∷◌, ◌++◌, String, str_eq, inl, inr, if◌then◌else◌,
  Bool-cases,
}
use songguo.Prelude.Map.{Map, lookup, insert}
use songguo.Prelude.Member.{Mem, here, there, Mem-cases}
use songguo.Prelude.Sort.{Mem-of_sort_by}
use songguo.Cover.{
  Shape, Run, Round, extends, is_known, emit, joined, known_round, close_all, round, walk, walked,
  message_cover, is_earlier,
}

-- A request of the session whose body was captured.
pub record IsSource (shapes : List Shape) (e : Shape) : Type 0 where
  pub member : Mem e shapes
  pub captured : e.has_raw ≡ true

module _ (P : Shape → Type 0) where
  abbrev OnBest : Option Shape → Type 0
  OnBest none = Unit
  OnBest (some e) = P e

  abbrev AllBest : Map Run → Type 0
  AllBest [] = Unit
  AllBest ((head, r) ∷ m) = OnBest r.best × AllBest m

  abbrev Every : List Shape → Type 0
  Every out = (e : Shape) → Mem e out → P e

  Every-append : (xs ys : List Shape) → Every xs → Every ys → Every (xs ++ ys)
  Every-append xs ys f g e m = elim (Mem-cases e xs ys m) [ inl k ↦ f e k | inr k ↦ g e k ]

  Every-nil : Every []
  Every-nil e m = elim m [ ]

  Every-one : (c : Shape) → P c → Every (c ∷ [])
  Every-one c p _ (here _) = p
  Every-one c p e (there _ _ k) = elim k [ ]

  Every-emit : (best : Option Shape) → OnBest best → Every (emit best)
  Every-emit none h = Every-nil
  Every-emit (some c) h = Every-one c h

  Every-close_all : (m : Map Run) → AllBest m → Every (close_all m)
  unfolding close_all
  Every-close_all [] h = Every-nil
  Every-close_all ((head, r) ∷ m) h =
      Every-append (emit r.best) (close_all m) (Every-emit r.best h.0) (Every-close_all m h.1)

  insert-AllBest :
      (head : String) (run : Run) (m : Map Run)
      → OnBest run.best
      → AllBest m
      → AllBest (insert head run m)
  unfolding insert
  insert-AllBest head run [] p h = (p, tt)
  insert-AllBest head run ((k, r) ∷ m) p h = elim (Bool-cases (str_eq k head)) [
    | inl y ↦ rw y (p, h.1)
    | inr n ↦ rw n (h.0, insert-AllBest head run m p h.1)
  ]

  abbrev OnRun : Option Run → Type 0
  OnRun none = Unit
  OnRun (some r) = OnBest r.best

  lookup-OnRun : (head : String) (m : Map Run) → AllBest m → OnRun (lookup head m)
  unfolding lookup
  lookup-OnRun head [] h = tt
  lookup-OnRun head ((k, x) ∷ m) h = elim (Bool-cases (str_eq k head)) [
    | inl y ↦ rw y (h.0)
    | inr n ↦ rw n (lookup-OnRun head m h.1)
  ]

  joined-OnBest :
      (cur : Shape) (best : Option Shape)
      → (cur.has_raw ≡ true → P cur)
      → OnBest best
      → OnBest (joined best cur).best
  joined-OnBest cur best p h = elim (Bool-cases cur.has_raw) [
    | inl y ↦ simp y (p y)
    | inr n ↦ simp n h
  ]

  -- A round emits, and leaves open, only what satisfies `P`.
  record Keeps (r : Round) : Type 0 where
    emitted : Every r.emitted
    open_runs : AllBest r.open_runs

  module _ (m : Map Run) (cur : Shape) (p : cur.has_raw ≡ true → P cur) (h : AllBest m) where
    begun-AllBest :
        (best : Option Shape) → OnBest best → AllBest (insert cur.head (joined best cur) m)
    begun-AllBest best b =
        insert-AllBest cur.head (joined best cur) m (joined-OnBest cur best p b) h

    known_round-Keeps : (o : Option Run) → OnRun o → Keeps (known_round m cur o)
    known_round-Keeps none b = record { emitted = Every-nil; open_runs = begun-AllBest none tt }
    known_round-Keeps (some r) b = elim (Bool-cases (extends r.last cur)) [
      | inl y ↦ rw y (record { emitted = Every-nil; open_runs = begun-AllBest r.best b })
      | inr n ↦ rw n (record { emitted = Every-emit r.best b; open_runs = begun-AllBest none tt })
    ]

    Every-own : Every (if cur.has_raw then cur ∷ [] else [])
    Every-own = elim (Bool-cases cur.has_raw) [
      | inl y ↦ simp y (Every-one cur (p y))
      | inr n ↦ simp n Every-nil
    ]

    round-Keeps : Keeps (round m cur)
    unfolding round
    round-Keeps = elim (Bool-cases (is_known cur)) [
      | inl y ↦ rw y (known_round-Keeps (lookup cur.head m) (lookup-OnRun cur.head m h))
      | inr n ↦ rw n (record { emitted = Every-own; open_runs = h })
    ]

  walk-Every :
      (agent : String) (m : Map Run) (shapes : List Shape)
      → AllBest m
      → ((c : Shape) → Mem c shapes → c.has_raw ≡ true → P c)
      → Every (walk agent m shapes)
  unfolding walk
  walk-Every agent m [] h p = Every-close_all m h
  walk-Every agent m (cur ∷ shapes) h p = elim (Bool-cases (str_eq agent cur.agent_id)) [
    | inl y ↦
        let k = round-Keeps m cur (p cur (here shapes)) h in
        rw y (
          Every-append (round m cur).emitted _ k.emitted (
            walk-Every cur.agent_id (round m cur).open_runs shapes k.open_runs
              (λ c n. p c (there cur shapes n))))
    | inr n ↦
        let k = round-Keeps [] cur (p cur (here shapes)) tt in
        rw n (
          Every-append (close_all m) _ (Every-close_all m h) (
            Every-append (round [] cur).emitted _ k.emitted (
              walk-Every cur.agent_id (round [] cur).open_runs shapes k.open_runs
                (λ c n. p c (there cur shapes n)))))
  ]

-- Only requests of the session whose body was captured are chosen.
pub message_cover-IsSource :
    (shapes : List Shape) (e : Shape) → Mem e (message_cover shapes) → IsSource shapes e
unfolding message_cover
message_cover-IsSource shapes e m = from shapes (Mem-of_sort_by is_earlier e (walked shapes) m)
  where
    from : (ss : List Shape) → Mem e (walked ss) → IsSource ss e
    from [] k = elim k [ ]
    from (c ∷ cs) k =
        walk-Every (IsSource (c ∷ cs)) c.agent_id [] (c ∷ cs) tt
          (λ x n r. record { member = n; captured = r }) e k
