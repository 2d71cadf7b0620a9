-- ===== src/Router/Health/Sessions.antt =====
-- backend/internal/router/health.go: the sessions that saw a vendor reject their requests, as a
-- record that takes a session once and is cut down to the oldest few.
use songguo.Prelude.{
  ℕ, ◌≤◌, ◌≡◌, refl, inl, inr, Bool, false, ◌||◌, List, [], ◌∷◌, String, arith, ltb, if◌then◌else◌,
  length, str_eq, eq_iff, min, Bool-cases,
}
use songguo.Router.Health.{Knobs, VendorHealth, demote, fold_client_fail, is_seen}

abbrev pub is_among : String → List String → Bool
is_among s [] = false
is_among s (x ∷ xs) = str_eq s x || is_among s xs

is_seen_lem : (s : String) (xs : List String) → is_seen s xs ≡ is_among s xs
is_seen_lem s [] = refl
is_seen_lem s (x ∷ xs) = ground (arith, eq_iff x s, eq_iff s x, is_seen_lem s xs)

abbrev pub IsDistinct : List String → Type 0
IsDistinct [] = Unit {0}
IsDistinct (x ∷ xs) = (is_among x xs ≡ false) × IsDistinct xs

-- One more session, the newest first; one that is there already stays where it is.
abbrev pub noted : String → List String → List String
noted s sessions = if is_among s sessions then sessions else s ∷ sessions

-- The oldest `n` of a list that has the newest first.
abbrev pub oldest : ℕ → List String → List String
oldest n [] = []
oldest n (s ∷ sessions) = if ltb (length sessions) n then s ∷ sessions else oldest n sessions

pub length-oldest : (n : ℕ) (xs : List String) → length (oldest n xs) ≡ min n (length xs)
length-oldest n [] = omega arith
length-oldest n (x ∷ xs) = ground (arith, length-oldest n xs)

oldest_all : (n : ℕ) (xs : List String) → length xs ≤ n → oldest n xs ≡ xs
oldest_all n [] l = refl
oldest_all n (x ∷ xs) l = ground arith

-- A rejection puts its session on record: the record is the oldest of all the sessions so far.
pub fold_client_fail-oldest :
    (k : Knobs) (s : String) (t : ℕ) (sessions : List String) (h : VendorHealth)
    → h.client_fails ≡ oldest k.client_fail_max sessions
    → (fold_client_fail k s h t).0.client_fails ≡ oldest k.client_fail_max (noted s sessions)
unfolding fold_client_fail demote
fold_client_fail-oldest k s t sessions h e =
    elim (Bool-cases (ltb (length sessions) k.client_fail_max)) [
      | inl l ↦ ground (arith, e, oldest_all k.client_fail_max sessions, is_seen_lem s sessions)
      | inr l ↦ ground (arith, e, length-oldest k.client_fail_max sessions, is_seen_lem s sessions)
    ]

pub noted-IsDistinct : (s : String) (xs : List String) → IsDistinct xs → IsDistinct (noted s xs)
noted-IsDistinct s xs d = ground (arith, d)
