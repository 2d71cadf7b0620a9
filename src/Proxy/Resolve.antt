-- ===== src/Proxy/Resolve.antt =====
-- backend/internal/proxy/proxy.go: from a request to the candidates that may serve it.
use Prim.Native.String.{◌++◌ as str_append}
use songguo.Prelude.{
  Bool, true, false, ◌&&◌, ◌||◌, not, Option, none, some, List, [], ◌∷◌, ◌++◌, String,
  if◌then◌else◌, str_eq,
}
use songguo.Prelude.Int.{pos}
use songguo.Prelude.Map.{Map, lookup, insert}
use songguo.Router.Select.{Selector, Target, scope_all, scope_model, scope_provider}
use songguo.Proxy.{User, Row, Effect, Request, billing_model, deny}

-- What `resolve` needs of a matched wire.
pub record Wire : Type 0 where
  pub name : String
  pub is_chat : Bool
  pub zero_cost : Bool

-- What `resolveWires` returns; a vendor's wire is `none` for a passthrough.
pub record Matched : Type 0 where
  pub kept : List Target
  pub wires : Map (Option Wire)
  pub denied : List String

-- One round of `resolveWires`. `match` is `wire.Resolve` at the request's method and path.
unfoldable pub match_target : (List String → Option Wire) → Target → Matched → Matched
match_target match t m = elim (lookup t.vendor.name m.wires) [
  | some _ ↦ record m { kept = m.kept ++ t ∷ [] }
  | none ↦ elim (match t.vendor.wires) [
    | some w ↦ record m { kept = m.kept ++ t ∷ []; wires = insert t.vendor.name (some w) m.wires }
    | none ↦
        if t.vendor.allow_unmatched
        then record m { kept = m.kept ++ t ∷ []; wires = insert t.vendor.name none m.wires }
        else record m { denied = m.denied ++ t.vendor.name ∷ [] }
  ]
]

unfoldable pub match_all : (List String → Option Wire) → List Target → Matched → Matched
unfolding match_target
match_all match [] m = m
match_all match (t ∷ ts) m = match_all match ts (match_target match t m)

-- `resolveWires`
unfoldable pub resolve_wires : (List String → Option Wire) → List Target → Matched
unfolding match_all
resolve_wires match targets =
    match_all match targets (record { kept = []; wires = []; denied = [] })

-- `contains`
abbrev pub contains : List String → String → Bool
contains [] v = false
contains (x ∷ xs) v = str_eq x v || contains xs v

-- `filterScopedVendors`
unfoldable pub filter_scoped : List String → List Target → List Target
filter_scoped scope [] = []
filter_scoped scope (t ∷ ts) =
    let rest = filter_scoped scope ts in if contains scope t.vendor.name then t ∷ rest else rest

-- The selector: a provider pin, else the body's model, else every vendor.
unfoldable pub selector : Request → Selector
selector r =
    if not (str_eq r.provider "")
    then record {
      scope = scope_provider;
      model = r.model;
      provider_id = r.provider;
      session = r.session;
    }
    else if not (str_eq r.model "")
    then record { scope = scope_model; model = r.model; provider_id = ""; session = r.session }
    else record { scope = scope_all; model = ""; provider_id = ""; session = r.session }

-- The result of `resolve`: the effects of a refusal, or the first target with its wire.
pub data Plan : Type 0 where
  refused : List Effect → Plan
  planned : Target → Option Wire → Plan

-- `strings.Join(names, ",")`
pub join : List String → String
join [] = ""
join (x ∷ []) = x
join (x ∷ y ∷ rest) = str_append x (str_append "," (join (y ∷ rest)))

-- `denyEntry`
abbrev pub deny_row : User → Request → String → Row
deny_row u r vendor = record {
  user = u.id;
  model = billing_model r;
  vendor = vendor;
  credential = "";
  status = pos 0;
  err = "";
  cost = pos 0;
}

abbrev pub is_empty : List String → Bool
is_empty [] = true
is_empty (x ∷ xs) = false

-- The scope of a user against the model of a request that names one.
abbrev pub model_refused : User → Request → Bool
model_refused u r =
    not (str_eq r.model "") && not (is_empty u.scope) && not (contains u.scope r.model)

-- The candidates that a scoped user may reach with a request that names no model.
abbrev pub scoped : User → Request → List Target → List Target
scoped u r kept =
    if str_eq r.model "" && not (is_empty u.scope) then filter_scoped u.scope kept else kept

abbrev pub unmatched_row : User → Request → List String → Row
unmatched_row u r denied = record (deny_row u r (join denied)) {
  err = str_append "unmatched: " (str_append r.method (str_append " " r.path));
}

-- `wires[t.Vendor.Name]`
abbrev pub wire_of : Target → Map (Option Wire) → Option Wire
wire_of t wires = elim (lookup t.vendor.name wires) [ none ↦ none | some w ↦ w ]

unfoldable pub plan_scoped : Bool → User → Request → Map (Option Wire) → List Target → Plan
plan_scoped capture u r wires [] = refused (deny capture (deny_row u r "") 403 "vendor_not_allowed")
plan_scoped capture u r wires (t ∷ ts) = planned t (wire_of t wires)

unfoldable pub plan_kept : Bool → User → Request → Matched → List Target → Plan
unfolding plan_scoped filter_scoped join
plan_kept capture u r m [] =
    refused (deny capture (unmatched_row u r m.denied) 404 "wire_unmatched")
plan_kept capture u r m (t ∷ ts) = plan_scoped capture u r m.wires (scoped u r (t ∷ ts))

-- `resolve`. `select` is `router.Select`, where `none` is any error.
unfoldable pub resolve :
    (Selector → Option (List Target)) → (List String → Option Wire) → Bool → User → Request → Plan
unfolding plan_kept resolve_wires selector
resolve select match capture u r =
    if model_refused u r
    then refused (deny capture (deny_row u r "") 403 "model_not_allowed")
    else elim (select (selector r)) [
      | none ↦ refused (deny capture (deny_row u r "") 502 "no_upstream")
      | some targets ↦ let m = resolve_wires match targets in plan_kept capture u r m m.kept
    ]
