-- ===== src/Manager/Prices/Lender.antt =====
-- backend/internal/configsvc/manager.go: whose price `fallbackPrice` lends.
use songguo.Prelude.{
  ◌≡◌, ◌⊎◌, refl, Bool, true, false, ◌&&◌, ◌||◌, none, some, [], ◌∷◌, String, arith, inl, inr,
  str_eq, is_before, is_before_trans, not_before_self, All, Bool-cases, subst,
}
use songguo.Prelude.Int.{ℤ, ltb_ℤ, leb_ℤ, eqb_ℤ}
use songguo.Prelude.Map.{Map}
use songguo.Prelude.Member.{Mem, here, there}
use songguo.Config.{Price}
use songguo.Manager.Prices.{
  may_lend, Best, lends_more, consider, consider_all, fallback_price, price_rank, unless_nameless,
}

abbrev pub IsNamed : String × Price → Type 0
IsNamed e = str_eq e.0 "" ≡ false

-- The order of the rates and, at one rate, of the names.
abbrev is_ahead : ℤ → String → ℤ → String → Bool
is_ahead r m q n = ltb_ℤ q r || (eqb_ℤ r q && is_before m n)

is_ahead-behind :
    (x y z : ℤ) (a b e : String)
    → is_ahead z e x a ≡ false
    → is_ahead y b x a ≡ true
    → is_ahead z e y b ≡ false
is_ahead-behind x y z a b e h k = ground (arith, is_before_trans e b a)

is_ahead_self : (x : ℤ) (a : String) → is_ahead x a x a ≡ false
is_ahead_self x a = ground (arith, not_before_self a)

or_false : (a b : Bool) → a || b ≡ false → b ≡ false
or_false a b h = ground (arith, h)

and_first : (a b : Bool) → a && b ≡ true → a ≡ true
and_first a b h = ground (arith, h)

and_second : (a b : Bool) → a && b ≡ true → b ≡ true
and_second a b h = ground (arith, h)

module _ (max_sane : ℤ) (for_model : String) where
  -- One of the prices that may be lent, of the highest rank, and the first by name among those.
  pub record IsLender (prices : Map Price) (best : String × Price) : Type 0 where
    pub member : Mem best prices
    pub lends : may_lend max_sane for_model best ≡ true
    pub highest :
        (e : String × Price)
        → Mem e prices
        → may_lend max_sane for_model e ≡ true
        → leb_ℤ (price_rank e.1) (price_rank best.1) ≡ true
    pub first :
        (e : String × Price)
        → Mem e prices
        → may_lend max_sane for_model e ≡ true
        → eqb_ℤ (price_rank e.1) (price_rank best.1) ≡ true
        → is_before e.0 best.0 ≡ false

  abbrev pub IsBest : Map Price → Best → Type 0
  IsBest prices none = (e : String × Price) → Mem e prices → may_lend max_sane for_model e ≡ false
  IsBest prices (some best) = IsLender prices best

  lends_more_self : (e : String × Price) → IsNamed e → lends_more (some e) e ≡ false
  lends_more_self e n = rw n (is_ahead_self (price_rank e.1) e.0)

  lends_more-better :
      (best : Best) (b e : String × Price)
      → IsNamed b
      → lends_more best e ≡ false
      → lends_more best b ≡ true
      → lends_more (some b) e ≡ false
  lends_more-better none b e n h k = cc h
  lends_more-better (some a) b e n h k = elim (Bool-cases (str_eq a.0 "")) [
    | inl y ↦ absurd (cc (rw y at h))
    | inr o ↦ rw n (
        is_ahead-behind (price_rank a.1) (price_rank b.1) (price_rank e.1) a.0 b.0 e.0 (rw o at h)
          (rw o at k))
  ]

  -- What is behind the best so far stays behind it.
  consider_all-behind :
      (best : Best) (prices : Map Price) (e : String × Price)
      → All IsNamed prices
      → lends_more best e ≡ false
      → lends_more (consider_all max_sane for_model best prices) e ≡ false
  unfolding consider_all consider
  consider_all-behind best [] e n h = h
  consider_all-behind best (b ∷ prices) e n h =
      elim (Bool-cases (may_lend max_sane for_model b && lends_more best b)) [
        | inl y ↦ rw y (
            consider_all-behind (some b) prices e n.1
              (lends_more-better best b e n.0 h (and_second _ _ y)))
        | inr k ↦ rw k (consider_all-behind best prices e n.1 h)
      ]

  consider_all-Mem :
      (e : String × Price) (best : Best) (prices : Map Price)
      → All IsNamed prices
      → Mem e prices
      → may_lend max_sane for_model e ≡ true
      → lends_more (consider_all max_sane for_model best prices) e ≡ false
  unfolding consider_all consider
  consider_all-Mem e best _ n (here prices) h = elim (Bool-cases (lends_more best e)) [
    | inl y ↦ rw h (rw y (consider_all-behind (some e) prices e n.1 (lends_more_self e n.0)))
    | inr k ↦ rw h (rw k (consider_all-behind best prices e n.1 k))
  ]
  consider_all-Mem e best _ n (there b prices m) h =
      consider_all-Mem e (consider max_sane for_model best b) prices n.1 m h

  -- Where the best comes from.
  abbrev Comes : Best → Map Price → Best → Type 0
  Comes start prices none = Unit
  Comes start prices (some b) =
      (start ≡ some b) ⊎ (Mem b prices × (may_lend max_sane for_model b ≡ true))

  Comes-there :
      (start : Best) (e : String × Price) (prices : Map Price) (best : Best)
      → Comes start prices best
      → Comes start (e ∷ prices) best
  Comes-there start e prices none c = tt
  Comes-there start e prices (some b) (inl s) = inl s
  Comes-there start e prices (some b) (inr m) = inr (there e prices m.0, m.1)

  Comes-here :
      (start : Best) (e : String × Price) (prices : Map Price) (best : Best)
      → may_lend max_sane for_model e ≡ true
      → Comes (some e) prices best
      → Comes start (e ∷ prices) best
  Comes-here start e prices none h c = tt
  Comes-here start e prices (some b) h (inl s) = inr (
      subst (λ x. Mem x (e ∷ prices) × (may_lend max_sane for_model x ≡ true)) (cc s)
        (here prices, h))
  Comes-here start e prices (some b) h (inr m) = inr (there e prices m.0, m.1)

  consider_all-Comes :
      (start : Best) (prices : Map Price)
      → Comes start prices (consider_all max_sane for_model start prices)
  unfolding consider_all consider
  consider_all-Comes none [] = tt
  consider_all-Comes (some b) [] = inl refl
  consider_all-Comes start (e ∷ prices) =
      elim (Bool-cases (may_lend max_sane for_model e && lends_more start e)) [
        | inl y ↦ rw y (
            Comes-here start e prices (consider_all max_sane for_model (some e) prices)
              (and_first _ _ y) (consider_all-Comes (some e) prices))
        | inr n ↦ rw n (
            Comes-there start e prices (consider_all max_sane for_model start prices)
              (consider_all-Comes start prices))
      ]

  Mem-IsNamed :
      (e : String × Price) (prices : Map Price) → All IsNamed prices → Mem e prices → IsNamed e
  Mem-IsNamed e _ n (here prices) = n.0
  Mem-IsNamed e _ n (there b prices m) = Mem-IsNamed e prices n.1 m

  ahead-highest : (x y : ℤ) (a b : String) → is_ahead y b x a ≡ false → leb_ℤ y x ≡ true
  ahead-highest x y a b h = ground (arith, h)

  ahead-first :
      (x y : ℤ) (a b : String) → is_ahead y b x a ≡ false → eqb_ℤ y x ≡ true → is_before b a ≡ false
  ahead-first x y a b h k = ground (arith, h, k)

  chosen-IsBest :
      (prices : Map Price) (best : Best)
      → All IsNamed prices
      → Comes none prices best
      → ((e : String × Price)
          → Mem e prices
          → may_lend max_sane for_model e ≡ true
          → lends_more best e ≡ false)
      → IsBest prices (unless_nameless best)
  chosen-IsBest prices none n c f = λ e m. elim (Bool-cases (may_lend max_sane for_model e)) [
    | inl y ↦ absurd (cc (f e m y))
    | inr k ↦ k
  ]
  chosen-IsBest prices (some b) n (inl s) f = absurd (cc s)
  chosen-IsBest prices (some b) n (inr m) f = rw (Mem-IsNamed b prices n m.0) (record {
    member = m.0;
    lends = m.1;
    highest = λ e k h.
        ahead-highest (price_rank b.1) (price_rank e.1) b.0 e.0
          (or_false (str_eq b.0 "") _ (f e k h));
    first = λ e k h.
        ahead-first (price_rank b.1) (price_rank e.1) b.0 e.0
          (or_false (str_eq b.0 "") _ (f e k h));
  })

-- Whatever the order in which Go visits the map, an unpriced model is lent the price of highest rank
-- among those of the same provider that may be lent, the first by name of equal ones; it is lent none
-- only if there is none. The models of the provider are not named by the empty text.
pub fallback_price-IsBest :
    (max_sane : ℤ) (prices : Map Price) (for_model : String)
    → All IsNamed prices
    → IsBest max_sane for_model prices (fallback_price max_sane prices for_model)
unfolding fallback_price
fallback_price-IsBest max_sane prices for_model n =
    chosen-IsBest max_sane for_model prices (consider_all max_sane for_model none prices) n
      (consider_all-Comes max_sane for_model none prices)
      (λ e m h. consider_all-Mem max_sane for_model e none prices n m h)
