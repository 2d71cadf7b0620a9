-- ===== src/Pricing/Signs.antt =====
-- backend/internal/pricing/pricing.go: when a cost is not negative.
use songguo.Prelude.{
  ℕ, ◌≡◌, refl, Bool, true, false, Option, none, some, List, [], ◌∷◌, arith, if◌then◌else◌, All,
}
use songguo.Prelude.Int.{ℤ, pos, negsuc, leb_ℤ, eqb_ℤ, ◌+ℤ◌, ◌*ℤ◌, neg_part}
use songguo.Catalog.{Cost, CostTier, CostSchedule}
use songguo.Catalog.Rates.{
  flat, stated, override, better, best_tier, over_tier, over_schedule, at_tier, at_schedule,
  first_schedule, resolve,
}
use songguo.Pricing.{Normalized, prompt_tokens, or_input, token_cost, call_cost, sum_axes, cost}

abbrev pub IsNat : ℤ → Type 0
IsNat x = neg_part x ≡ 0

-- The rates of a bracket, and of a cost with all its brackets.
pub record TierIsNat (t : CostTier) : Type 0 where
  pub input : IsNat t.input
  pub output : IsNat t.output
  pub cache_read : IsNat t.cache_read
  pub cache_write : IsNat t.cache_write

pub record ScheduleIsNat (s : CostSchedule) : Type 0 where
  pub input : IsNat s.input
  pub output : IsNat s.output
  pub cache_read : IsNat s.cache_read
  pub cache_write : IsNat s.cache_write

pub record BaseIsNat (c : Cost) : Type 0 where
  pub input : IsNat c.input
  pub output : IsNat c.output
  pub cache_read : IsNat c.cache_read
  pub cache_write : IsNat c.cache_write
  pub character : IsNat c.character
  pub second : IsNat c.second
  pub image : IsNat c.image
  pub call : IsNat c.call

pub record CostIsNat (c : Cost) : Type 0 where
  pub base : BaseIsNat c
  pub tiers : All TierIsNat c.tiers
  pub schedules : All ScheduleIsNat c.schedules

pub record UsageIsNat (n : Normalized) : Type 0 where
  pub input_tokens : IsNat n.input_tokens
  pub output_tokens : IsNat n.output_tokens
  pub cached_input_tokens : IsNat n.cached_input_tokens
  pub cache_creation_tokens : IsNat n.cache_creation_tokens
  pub images : IsNat n.images
  pub seconds : IsNat n.seconds
  pub chars : IsNat n.chars

+ℤ-IsNat : (a b : ℤ) → IsNat a → IsNat b → IsNat (a +ℤ b)
unfolding ◌+ℤ◌
+ℤ-IsNat a b h k = ground (arith, h, k)

*ℤ-IsNat : (a b : ℤ) → IsNat a → IsNat b → IsNat (a *ℤ b)
unfolding ◌*ℤ◌
*ℤ-IsNat (pos a) (pos b) h k = ground arith
*ℤ-IsNat (negsuc a) b h k = absurd (omega (arith, h))
*ℤ-IsNat (pos a) (negsuc b) h k = absurd (omega (arith, k))

stated-IsNat : (rate base : ℤ) → IsNat rate → IsNat base → IsNat (stated rate base)
stated-IsNat rate base h k = ground (arith, h, k)

override-BaseIsNat :
    (c : Cost) (input output cache_read cache_write : ℤ)
    → BaseIsNat c
    → IsNat input
    → IsNat output
    → IsNat cache_read
    → IsNat cache_write
    → BaseIsNat (override c input output cache_read cache_write)
unfolding override
override-BaseIsNat c input output cache_read cache_write b i o r w = record {
  input = stated-IsNat input c.input i b.input;
  output = stated-IsNat output c.output o b.output;
  cache_read = stated-IsNat cache_read c.cache_read r b.cache_read;
  cache_write = stated-IsNat cache_write c.cache_write w b.cache_write;
  character = b.character;
  second = b.second;
  image = b.image;
  call = b.call;
}

flat-BaseIsNat : (c : Cost) → BaseIsNat c → BaseIsNat (flat c)
flat-BaseIsNat c b = record {
  input = b.input;
  output = b.output;
  cache_read = b.cache_read;
  cache_write = b.cache_write;
  character = b.character;
  second = b.second;
  image = b.image;
  call = b.call;
}

-- What holds of what is there.
abbrev OnSome : {A : Type 0} → (A → Type 0) → Option A → Type 0
OnSome P none = Unit
OnSome P (some x) = P x

over_tier-BaseIsNat :
    (c : Cost) (best : Option CostTier)
    → BaseIsNat c
    → OnSome TierIsNat best
    → BaseIsNat (over_tier c best)
over_tier-BaseIsNat c none b h = flat-BaseIsNat c b
over_tier-BaseIsNat c (some t) b h =
    override-BaseIsNat (flat c) t.input t.output t.cache_read t.cache_write (flat-BaseIsNat c b)
      h.input h.output h.cache_read h.cache_write

over_schedule-BaseIsNat :
    (c : Cost) (s : Option CostSchedule)
    → BaseIsNat c
    → OnSome ScheduleIsNat s
    → BaseIsNat (over_schedule c s)
over_schedule-BaseIsNat c none b h = flat-BaseIsNat c b
over_schedule-BaseIsNat c (some s) b h =
    override-BaseIsNat (flat c) s.input s.output s.cache_read s.cache_write (flat-BaseIsNat c b)
      h.input h.output h.cache_read h.cache_write

module _ {A : Type 0} (P : A → Type 0) where
  if-OnSome : (b : Bool) (x y : Option A) → OnSome P x → OnSome P y → OnSome P (if b then x else y)
  if-OnSome true x y p q = p
  if-OnSome false x y p q = q

better-OnSome :
    (P : CostTier → Type 0) (tokens : ℤ) (best : Option CostTier) (t : CostTier)
    → OnSome P best
    → P t
    → OnSome P (better tokens best t)
better-OnSome P tokens none t h p = if-OnSome P _ (some t) none p tt
better-OnSome P tokens (some b) t h p =
    if-OnSome P _ (if _ then some t else some b) (some b) (if-OnSome P _ (some t) (some b) p h) h

best_tier-OnSome :
    (P : CostTier → Type 0) (tokens : ℤ) (best : Option CostTier) (ts : List CostTier)
    → OnSome P best
    → All P ts
    → OnSome P (best_tier tokens best ts)
unfolding best_tier
best_tier-OnSome P tokens best [] h k = h
best_tier-OnSome P tokens best (t ∷ ts) h k =
    best_tier-OnSome P tokens (better tokens best t) ts (better-OnSome P tokens best t h k.0) k.1

first_schedule-OnSome :
    (P : CostSchedule → Type 0) (ss : List CostSchedule) (at : ℕ)
    → All P ss
    → OnSome P (first_schedule ss at)
unfolding first_schedule
first_schedule-OnSome P [] at h = tt
first_schedule-OnSome P (s ∷ ss) at h =
    if-OnSome P _ (some s) (first_schedule ss at) h.0 (first_schedule-OnSome P ss at h.1)

resolve-BaseIsNat : (c : Cost) (tokens : ℤ) (at : ℕ) → CostIsNat c → BaseIsNat (resolve c tokens at)
unfolding resolve at_tier at_schedule
resolve-BaseIsNat c tokens at h = by_kind c.schedules
  where
    by_kind :
        (ss : List CostSchedule)
        → BaseIsNat (elim ss [ [] ↦ at_tier c tokens | s ∷ rest ↦ at_schedule c at ])
    by_kind [] =
        over_tier-BaseIsNat c (best_tier tokens none c.tiers) h.base
          (best_tier-OnSome TierIsNat tokens none c.tiers tt h.tiers)
    by_kind (s ∷ rest) =
        over_schedule-BaseIsNat c (first_schedule c.schedules at) h.base
          (first_schedule-OnSome ScheduleIsNat c.schedules at h.schedules)

or_input-IsNat : (rate : ℤ) (c : Cost) → IsNat rate → IsNat c.input → IsNat (or_input rate c)
or_input-IsNat rate c h k = ground (arith, h, k)

token_cost-IsNat : (c : Cost) (n : Normalized) → BaseIsNat c → UsageIsNat n → IsNat (token_cost c n)
unfolding token_cost
token_cost-IsNat c n b u =
    +ℤ-IsNat _ _
      (+ℤ-IsNat _ _
        (+ℤ-IsNat _ _ (*ℤ-IsNat n.input_tokens c.input u.input_tokens b.input) (
          *ℤ-IsNat n.cache_creation_tokens (or_input c.cache_write c) u.cache_creation_tokens
            (or_input-IsNat c.cache_write c b.cache_write b.input)))
        (*ℤ-IsNat n.cached_input_tokens (or_input c.cache_read c) u.cached_input_tokens
          (or_input-IsNat c.cache_read c b.cache_read b.input)))
      (*ℤ-IsNat n.output_tokens c.output u.output_tokens b.output)

call_count-IsNat : (calls : ℤ) → IsNat (if leb_ℤ calls (pos 0) then pos 1 else calls)
call_count-IsNat calls = ground arith

if-IsNat : (b : Bool) (x : ℤ) → IsNat x → IsNat (if b then pos 0 else x)
if-IsNat true x h = refl
if-IsNat false x h = h

call_cost-IsNat : (c : Cost) (n : Normalized) → BaseIsNat c → IsNat (call_cost c n)
call_cost-IsNat c n b = if-IsNat (eqb_ℤ c.call (pos 0)) _ (
    *ℤ-IsNat c.call (if leb_ℤ n.calls (pos 0) then pos 1 else n.calls) b.call
      (call_count-IsNat n.calls))

sum_axes-IsNat : (c : Cost) (n : Normalized) → BaseIsNat c → UsageIsNat n → IsNat (sum_axes c n)
unfolding sum_axes
sum_axes-IsNat c n b u = +ℤ-IsNat _ _ (token_cost-IsNat c n b u) (
    *ℤ-IsNat (pos 1_000_000) _ refl (
      +ℤ-IsNat _ _
        (+ℤ-IsNat _ _
          (+ℤ-IsNat _ _ (*ℤ-IsNat c.character n.chars b.character u.chars)
            (*ℤ-IsNat c.second n.seconds b.second u.seconds))
          (*ℤ-IsNat c.image n.images b.image u.images))
        (call_cost-IsNat c n b)))

pub cost-IsNat :
    (c : Cost) (n : Normalized) (at : ℕ) → CostIsNat c → UsageIsNat n → IsNat (cost c n at)
unfolding cost
cost-IsNat c n at h u = sum_axes-IsNat _ n (resolve-BaseIsNat c (prompt_tokens n) at h) u
