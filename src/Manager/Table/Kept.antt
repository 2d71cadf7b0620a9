-- ===== src/Manager/Table/Kept.antt =====
-- backend/internal/configsvc/manager.go: what the second pass leaves of the prices.
use Prim.Native.String.{◌++◌ as str_append}
use songguo.Prelude.{
  ◌≡◌, ◌∙◌, refl, ap, false, Option, none, some, List, [], ◌∷◌, String, arith, inl, inr, str_eq,
  eq_iff, Bool-cases,
}
use songguo.Prelude.Int.{ℤ}
use songguo.Prelude.Map.{Map, lookup, lookup-insert}
use songguo.Config.{Price}
use songguo.Manager.{ProviderModel}
use songguo.Manager.Prices.{Best, fallback_price}
use songguo.Manager.Table.{lent, lend_to, lend_all}

lent-other :
    (table : Map Price) (model x : String) (best : Best)
    → str_eq model x ≡ false
    → lookup x (lent table model best) ≡ lookup x table
lent-other table model x none n = refl
lent-other table model x (some (from, p)) n =
    let q : Price = record { cost = p.cost; source = str_append "fallback:" from } in
    ground (arith, n, lookup-insert model x q table)

module _ (max_sane : ℤ) where
  -- A price that is not marked as unpriced outlasts the turn of any model.
  lend_to-kept :
      (table : Map Price) (model x : String) (p : Price)
      → lookup x table ≡ some p
      → str_eq p.source "unpriced" ≡ false
      → lookup x (lend_to max_sane table model (lookup model table)) ≡ some p
  lend_to-kept table model x p e n = elim (Bool-cases (str_eq model x)) [
    | inl y ↦
        let same : lookup model table ≡ some p =
          ap (λ k. lookup k table) ((eq_iff model x).0 y) ∙ e in
        rw same (rw n e)
    | inr o ↦ other (lookup model table) o
  ]
    where
      other :
          (q : Option Price)
          → str_eq model x ≡ false
          → lookup x (lend_to max_sane table model q) ≡ some p
      other none o = e
      other (some q) o = elim (Bool-cases (str_eq q.source "unpriced")) [
        | inl y ↦ rw y (lent-other table model x (fallback_price max_sane table model) o ∙ e)
        | inr k ↦ rw k e
      ]

  -- The second pass changes no price that somebody stated, be it zero: whatever models have their turn,
  -- a model whose price is not marked as unpriced keeps it.
  pub lend_all-kept :
      (table : Map Price) (models : List ProviderModel) (x : String) (p : Price)
      → lookup x table ≡ some p
      → str_eq p.source "unpriced" ≡ false
      → lookup x (lend_all max_sane table models) ≡ some p
  unfolding lend_all
  lend_all-kept table [] x p e n = e
  lend_all-kept table (m ∷ ms) x p e n =
      lend_all-kept (lend_to max_sane table m.model (lookup m.model table)) ms x p
        (lend_to-kept table m.model x p e n) n
