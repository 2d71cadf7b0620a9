-- ===== src/RateLimit/Windows.antt =====
-- backend/internal/proxy/ratelimit.go: how many attempts of a user one window admits.
use songguo.Prelude.{
  ◌∙◌, ◌⊎◌, inl, inr, Bool-cases, ℕ, suc, ◌+◌, ◌-◌, ◌≤◌, ◌<◌, ◌≡◌, true, false, ◌&&◌, some, List,
  [], ◌∷◌, String, arith, min, if◌then◌else◌, str_eq, eq_iff,
}
use songguo.Prelude.Map.{lookup, insert, lookup-insert}
use songguo.Prelude.Int.{ℤ, pos}
use songguo.RateLimit.{RateLimiter, Window, rate_window, is_over, count_in, start_of, admit, allow}

-- A call of `allow`: the user's key and the time.
pub record UserCall : Type 0 where
  pub key : String
  pub now : ℕ

-- The number of attempts of one key in a sequence.
unfoldable pub attempts_of : String → List UserCall → ℕ
attempts_of k [] = 0
attempts_of k (a ∷ rest) = let n = attempts_of k rest in if str_eq a.key k then suc n else n

-- The number of those that the limiter admits, where every key has its limit.
unfoldable pub admitted : (String → ℤ) → String → RateLimiter → List UserCall → ℕ
unfolding allow
admitted limit k l [] = 0
admitted limit k l (a ∷ rest) =
    let r = allow a.key (limit a.key) a.now l in
    let n = admitted limit k r.0 rest in if str_eq a.key k && r.1 then suc n else n

-- Every attempt of the key comes before the instant.
abbrev pub AllBefore : String → ℕ → List UserCall → Type 0
AllBefore k end [] = Unit {0}
AllBefore k end (a ∷ rest) = (str_eq a.key k ≡ true → a.now < end) × AllBefore k end rest

allow_other :
    (j k : String) (limit : ℤ) (now : ℕ) (l : RateLimiter)
    → str_eq j k ≡ false
    → lookup k (allow j limit now l).0 ≡ lookup k l
unfolding allow admit
allow_other j k limit now l n = ground (
  arith,
  lookup-insert j k (record { start = now; count = 1 }) l,
  lookup-insert j k
      (record { start = start_of (lookup j l) now; count = count_in (lookup j l) + 1 }) l,
)

allow_full :
    (k : String) (n now : ℕ) (l : RateLimiter) (w : Window)
    → lookup k l ≡ some w
    → now < w.start + rate_window
    → n ≤ w.count
    → 0 < n
    → allow k (pos n) now l ≡ (l, false)
unfolding allow admit count_in
allow_full k n now l w e t h z = ground arith

allow_room :
    (k : String) (n now : ℕ) (l : RateLimiter) (w : Window)
    → lookup k l ≡ some w
    → now < w.start + rate_window
    → w.count < n
    → allow k (pos n) now l ≡ (insert k (record { start = w.start; count = w.count + 1 }) l, true)
unfolding allow admit count_in start_of
allow_room k n now l w e t h = ground arith

allow_fresh :
    (k : String) (n now : ℕ) (l : RateLimiter)
    → 0 < n
    → is_over (lookup k l) now ≡ true
    → allow k (pos n) now l ≡ (insert k (record { start = now; count = 1 }) l, true)
unfolding allow admit
allow_fresh k n now l z h = ground arith

ltb-cases : (a b : ℕ) → (a < b) ⊎ (b ≤ a)
ltb-cases a b = ground arith

-- Within a window the key is given what is left of its limit.
admitted_within :
    (limit : String → ℤ) (k : String) (n : ℕ) (l : RateLimiter) (w : Window) (list : List UserCall)
    → limit k ≡ pos n
    → 0 < n
    → lookup k l ≡ some w
    → w.count ≤ n
    → AllBefore k (w.start + rate_window) list
    → admitted limit k l list ≡ min (attempts_of k list) (n - w.count)
unfolding admitted attempts_of
admitted_within limit k n l w [] e z h c b = omega arith
admitted_within limit k n l w (a ∷ rest) e z h c b = elim (Bool-cases (str_eq a.key k)) [
  | inr other ↦ rw other (
      admitted_within limit k n (allow a.key (limit a.key) a.now l).0 w rest e z
        (allow_other a.key k (limit a.key) a.now l other ∙ h) c b.1)
  | inl same ↦
      rw (same, (eq_iff a.key k).0 same, e)
        (elim (ltb-cases w.count n) [
          | inl room ↦
              let next : Window = record { start = w.start; count = w.count + 1 } in
              rw (allow_room k n a.now l w h (b.0 same) room) (
                omega (
                  arith,
                  admitted_within limit k n (insert k next l) next rest e z
                      (ground (arith, lookup-insert k k next l, eq_iff k k)) (omega arith) b.1,
                ))
          | inr full ↦
              rw (allow_full k n a.now l w h (b.0 same) full z)
                (omega (arith, admitted_within limit k n l w rest e z h c b.1))
        ])
]

-- From the attempt of a user that opens a window, and for as long as the window lasts, the limiter
-- admits exactly as many of the user's attempts as the limit allows: all of them, or `n` of them if
-- they are more, whatever the other users do meanwhile.
pub admitted_lem :
    (limit : String → ℤ) (k : String) (n now : ℕ) (l : RateLimiter) (rest : List UserCall)
    → limit k ≡ pos n
    → 0 < n
    → is_over (lookup k l) now ≡ true
    → AllBefore k (now + rate_window) rest
    → admitted limit k l (record { key = k; now = now } ∷ rest)
      ≡ min (attempts_of k (record { key = k; now = now } ∷ rest)) n
unfolding admitted attempts_of
admitted_lem limit k n now l rest e z h b =
    let first : Window = record { start = now; count = 1 } in
    rw (e, allow_fresh k n now l z h)
      (ground (
        arith,
        eq_iff k k,
        admitted_within limit k n (insert k first l) first rest e z
            (ground (arith, lookup-insert k k first l, eq_iff k k)) (omega arith) b,
      ))
