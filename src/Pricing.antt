-- ===== src/Pricing.antt =====
-- backend/internal/pricing/pricing.go: what a call costs. The result is in millionths of the unit of
-- the rates, so that the division of the token part by a million is exact.
pub mod Laws
pub mod Signs
pub mod Credit
pub mod Tests
use songguo.Prelude.{ℕ, Bool, true, false, if◌then◌else◌}
use songguo.Prelude.Int.{ℤ, pos, leb_ℤ, eqb_ℤ, ◌+ℤ◌, ◌*ℤ◌}
use songguo.Catalog.{Cost}
use songguo.Catalog.Rates.{resolve}

-- `wire.Normalized`
pub record Normalized : Type 0 where
  pub input_tokens : ℤ
  pub output_tokens : ℤ
  pub cached_input_tokens : ℤ
  pub cache_creation_tokens : ℤ
  pub thinking_tokens : ℤ
  pub calls : ℤ
  pub images : ℤ
  pub seconds : ℤ
  pub chars : ℤ

-- `promptTokens`
unfoldable pub prompt_tokens : Normalized → ℤ
prompt_tokens n = n.input_tokens +ℤ n.cached_input_tokens +ℤ n.cache_creation_tokens

-- A rate that falls back to the rate of fresh input.
abbrev pub or_input : ℤ → Cost → ℤ
or_input rate c = if leb_ℤ rate (pos 0) then c.input else rate

-- `tokenCost`
unfoldable pub token_cost : Cost → Normalized → ℤ
token_cost c n =
    n.input_tokens *ℤ c.input
    +ℤ n.cache_creation_tokens *ℤ or_input c.cache_write c
    +ℤ n.cached_input_tokens *ℤ or_input c.cache_read c
    +ℤ n.output_tokens *ℤ c.output

abbrev pub call_cost : Cost → Normalized → ℤ
call_cost c n =
    if eqb_ℤ c.call (pos 0)
    then pos 0
    else c.call *ℤ (if leb_ℤ n.calls (pos 0) then pos 1 else n.calls)

-- The sum of `Cost` at rates that are resolved.
unfoldable pub sum_axes : Cost → Normalized → ℤ
unfolding token_cost
sum_axes c n =
    token_cost c n
    +ℤ pos 1_000_000
      *ℤ (c.character *ℤ n.chars +ℤ c.second *ℤ n.seconds +ℤ c.image *ℤ n.images +ℤ call_cost c n)

-- `Cost`
unfoldable pub cost : Cost → Normalized → ℕ → ℤ
unfolding sum_axes prompt_tokens
cost c n at = sum_axes (resolve c (prompt_tokens n) at) n
