-- ===== src/Manager/Prices/Makers.antt =====
-- backend/internal/configsvc/manager.go: whose rate is taken for a model whose provider is not known.
use songguo.Prelude.{
  ◌≡◌, refl, true, false, Option, none, some, List, [], ◌∷◌, String, arith, inl, inr, is_before,
  not_before_trans, not_before_back, not_before_self, All, Option-cases, subst,
}
use songguo.Prelude.Member.{Mem, here, there}
use songguo.Prelude.Sort.{sort_by, IsSorted, sort_by-IsSorted, Mem-sort_by, Mem-of_sort_by}
use songguo.Config.{Price}
use songguo.Manager.Prices.{
  Texts, Listed, comes_first, keys, any_provider_order, first_price, offered, any_model_price,
}

comes_first-asym : (a b : String) → comes_first a b ≡ true → comes_first b a ≡ false
comes_first-asym a b h = ground (arith, h, not_before_back a b)

comes_first-ge :
    (a b c : String) → comes_first b a ≡ false → comes_first c b ≡ false → comes_first c a ≡ false
comes_first-ge a b c h k = ground (arith, h, k, not_before_trans a b c)

not_first_self : (a : String) → comes_first a a ≡ false
not_first_self a = ground (arith, not_before_self a)

All-Mem {ℓ} : {A : Type ℓ} (P : A → Type 0) (x : A) (xs : List A) → All P xs → Mem x xs → P x
All-Mem P x _ h (here xs) = h.0
All-Mem P x _ h (there y xs m) = All-Mem P x xs h.1 m

module _ (price : String → Option Price) where
  -- The price of one of the providers, where those that come before it have none.
  pub record IsFirst (ids : List String) (p : Price) : Type 0 where
    pub from : String
    pub member : Mem from ids
    pub states : price from ≡ some p
    pub first : (j : String) → Mem j ids → comes_first j from ≡ true → price j ≡ none

  abbrev pub IsChoice : List String → Option Price → Type 0
  IsChoice ids none = (j : String) → Mem j ids → price j ≡ none
  IsChoice ids (some p) = IsFirst ids p

  IsFirst-head :
      (x : String) (ids : List String) (p : Price)
      → All (λ y. comes_first y x ≡ false) ids
      → price x ≡ some p
      → IsFirst (x ∷ ids) p
  IsFirst-head x ids p h e = record {
    from = x;
    member = here ids;
    states = e;
    first = λ j m c. absurd (behind j m c);
  }
    where
      behind : (j : String) → Mem j (x ∷ ids) → comes_first j x ≡ true → ⊥
      behind _ (here _) c = cc (c, not_first_self x)
      behind j (there _ _ m) c = cc (c, All-Mem (λ y. comes_first y x ≡ false) j ids h m)

  IsChoice-there :
      (x : String) (ids : List String) (o : Option Price)
      → price x ≡ none
      → IsChoice ids o
      → IsChoice (x ∷ ids) o
  IsChoice-there x ids none e k = from
    where
      from : (j : String) → Mem j (x ∷ ids) → price j ≡ none
      from _ (here _) = e
      from j (there _ _ m) = k j m
  IsChoice-there x ids (some p) e k = record {
    from = k.from;
    member = there x ids k.member;
    states = k.states;
    first = first;
  }
    where
      first : (j : String) → Mem j (x ∷ ids) → comes_first j k.from ≡ true → price j ≡ none
      first _ (here _) c = e
      first j (there _ _ m) c = k.first j m c

  first_price-skip :
      (x : String) (ids : List String)
      → price x ≡ none
      → first_price price ids ≡ first_price price (x ∷ ids)
  unfolding first_price
  first_price-skip x ids e = rw (e, first_price) refl

  first_price-take :
      (x : String) (ids : List String) (p : Price)
      → price x ≡ some p
      → some p ≡ first_price price (x ∷ ids)
  unfolding first_price
  first_price-take x ids p e = rw (e, first_price) refl

  first_price-IsChoice :
      (ids : List String) → IsSorted comes_first ids → IsChoice ids (first_price price ids)
  unfolding first_price
  first_price-IsChoice [] s = λ j m. elim m [ ]
  first_price-IsChoice (x ∷ ids) s = elim (Option-cases (price x)) [
    | inl e ↦
        subst (IsChoice (x ∷ ids)) (first_price-skip x ids e)
          (IsChoice-there x ids (first_price price ids) e (first_price-IsChoice ids s.1))
    | inr (p, e) ↦
        subst (IsChoice (x ∷ ids)) (first_price-take x ids p e) (IsFirst-head x ids p s.0 e)
  ]

  Mem-order :
      (listed : Listed) (j : String) → Mem j (keys listed) → Mem j (any_provider_order listed)
  Mem-order listed j m =
      Mem-sort_by comes_first j (sort_by is_before (keys listed))
        (Mem-sort_by is_before j (keys listed) m)

  Mem-of_order :
      (listed : Listed) (j : String) → Mem j (any_provider_order listed) → Mem j (keys listed)
  Mem-of_order listed j m =
      Mem-of_sort_by is_before j (keys listed)
        (Mem-of_sort_by comes_first j (sort_by is_before (keys listed)) m)

  order-IsChoice :
      (listed : Listed) (o : Option Price)
      → IsChoice (any_provider_order listed) o
      → IsChoice (keys listed) o
  order-IsChoice listed none k = λ j m. k j (Mem-order listed j m)
  order-IsChoice listed (some p) k = record {
    from = k.from;
    member = Mem-of_order listed k.from k.member;
    states = k.states;
    first = λ j m c. k.first j (Mem-order listed j m) c;
  }

-- Where only the name of a model is known, its rate is that of a provider whose list states one other
-- than zero, and no provider that comes before states one: every maker comes before those that resell,
-- and providers of one kind go by their ids. If no rate is found, no provider states one.
pub any_model_price-IsChoice :
    (t : Texts) (source : String) (listed : Listed) (model : String)
    → IsChoice (offered t source listed model) (keys listed) (any_model_price t source listed model)
unfolding any_model_price
any_model_price-IsChoice t source listed model =
    order-IsChoice (offered t source listed model) listed
      (first_price (offered t source listed model) (any_provider_order listed))
      (first_price-IsChoice (offered t source listed model) (any_provider_order listed) (
        sort_by-IsSorted comes_first comes_first-asym comes_first-ge
          (sort_by is_before (keys listed))))
