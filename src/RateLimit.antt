-- ===== src/RateLimit.antt =====
-- backend/internal/proxy/ratelimit.go: the fixed-window request counter of each user.
pub mod Windows
pub mod Tests
use songguo.Prelude.{
  ℕ, ◌+◌, Bool, true, false, Option, none, some, List, [], ◌∷◌, String, ltb, leb, if◌then◌else◌,
}
use songguo.Prelude.Map.{Map, lookup, insert}
use songguo.Prelude.Int.{ℤ, pos, leb_ℤ}
use songguo.Prelude.Time.{minute}

abbrev pub rate_window : ℕ
rate_window = minute

pub record Window : Type 0 where
  pub start : ℕ
  pub count : ℕ

-- The windows of a `rateLimiter`; the clock's reading is an argument of `allow`.
abbrev pub RateLimiter : Type 0
RateLimiter = Map Window

-- `newRateLimiter`
abbrev pub new_rate_limiter : RateLimiter
new_rate_limiter = []

-- `w == nil || now.Sub(w.start) >= rateWindow`
abbrev pub is_over : Option Window → ℕ → Bool
is_over none now = true
is_over (some w) now = leb (w.start + rate_window) now

count_in : Option Window → ℕ
count_in none = 0
count_in (some w) = w.count

start_of : Option Window → ℕ → ℕ
start_of none now = now
start_of (some w) now = w.start

-- `allow`, from the lock on.
pub admit : String → ℤ → ℕ → RateLimiter → RateLimiter × Bool
unfolding count_in start_of
admit key limit now l =
    let w = lookup key l in
    if is_over w now
    then (insert key (record { start = now; count = 1 }) l, true)
    else if leb_ℤ limit (pos (count_in w))
    then (l, false)
    else (insert key (record { start = start_of w now; count = count_in w + 1 }) l, true)

-- `allow`
unfoldable pub allow : String → ℤ → ℕ → RateLimiter → RateLimiter × Bool
unfolding admit
allow key limit now l = if leb_ℤ limit (pos 0) then (l, true) else admit key limit now l
