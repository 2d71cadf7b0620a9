-- ===== src/Proxy/Texts.antt =====
-- backend/internal/proxy/proxy.go and backend/internal/calls/calls.go: the slugs that carry a detail.
use Prim.Native.String.{◌++◌ as str_append}
use Prim.Native.Char.{Char, code}
use text.Mathlib.Text.{starts_with}
use text.Mathlib.TextEquality.{starts_with_iff}
use text.Mathlib.TextPositions.{starts_with-append}
use text.Mathlib.TextLemmas.{head-eq_of_cons-eq, cons-append, cons-ne-nil}
use songguo.Prelude.{
  ℕ, ◌≡◌, ◌∙◌, ap, sym, true, false, String, arith, str_eq, eq_iff, Bool-cases, inl, inr, subst,
}
use songguo.Prelude.Int.{pos}
use songguo.Outcome.{outcome_of, is_provider_failure}
use songguo.Outcome.Slugs.{failure_lem}

-- Two texts of which one begins the other begin alike.
starts_with-head :
    (a b : Char) (s t : String) → starts_with (String.◌∷◌ a s) (String.◌∷◌ b t) ≡ true → a ≡ b
starts_with-head a b s t h =
    let p = (starts_with_iff (String.◌∷◌ a s) (String.◌∷◌ b t)).0 h in
    sym (head-eq_of_cons-eq (sym (cons-append b t p.0) ∙ p.1))

abbrev first_letter : Char
first_letter = "u"

abbrev letters : String
letters = "nmatched: "

-- No text that begins with a `u` begins with another letter.
u_prefix :
    (b : Char) (t text : String)
    → (code first_letter ≡ code b → ⊥)
    → starts_with (str_append "unmatched: " text) (String.◌∷◌ b t) ≡ false
u_prefix b t text n =
    elim (Bool-cases (starts_with (str_append "unmatched: " text) (String.◌∷◌ b t))) [
      | inr e ↦ e
      | inl e ↦
          let whole = cons-append first_letter letters text in
          let h = subst (λ x. starts_with x (String.◌∷◌ b t) ≡ true) whole e in
          absurd (n (ap code (starts_with-head first_letter b (str_append letters text) t h)))
    ]

pub unmatched_named : (text : String) → str_eq (str_append "unmatched: " text) "" ≡ false
unmatched_named text = elim (Bool-cases (str_eq (str_append "unmatched: " text) "")) [
  | inr e ↦ e
  | inl e ↦ absurd (
      cons-ne-nil first_letter (str_append letters text) (
        sym (cons-append first_letter letters text)
        ∙ (eq_iff (str_append "unmatched: " text) "").0 e))
]

abbrev transport_letter : Char
transport_letter = "t"

abbrev transport_letters : String
transport_letters = "ransport_error: "

pub transport_named : (text : String) → str_eq (str_append "transport_error: " text) "" ≡ false
transport_named text = elim (Bool-cases (str_eq (str_append "transport_error: " text) "")) [
  | inr e ↦ e
  | inl e ↦ absurd (
      cons-ne-nil transport_letter (str_append transport_letters text) (
        sym (cons-append transport_letter transport_letters text)
        ∙ (eq_iff (str_append "transport_error: " text) "").0 e))
]

pub unmatched_blameless :
    (status : ℕ) (text : String)
    → is_provider_failure (outcome_of (pos status) (str_append "unmatched: " text)) ≡ false
unmatched_blameless status text = ground (
  arith,
  failure_lem (pos status) (str_append "unmatched: " text),
  unmatched_named text,
  u_prefix "t" "ransport_error: " text (λ e. omega arith),
  u_prefix "s" "tream_error: " text (λ e. omega arith),
)

pub transport_blamed :
    (text : String)
    → is_provider_failure (outcome_of (pos 502) (str_append "transport_error: " text)) ≡ true
transport_blamed text = ground (
  arith,
  failure_lem (pos 502) (str_append "transport_error: " text),
  starts_with-append "transport_error: " text,
)
