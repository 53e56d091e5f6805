-- ===== src/Application/Routing.antt =====
-- The choice of connectors for a payment (crates/openpay-application/src/routing.rs). Reading a policy
-- from its JSON is serde's, a parameter.
pub mod Ranking
use Prim.Native.String.{String, ◌++◌ as append}
use vega_trix.Base.{
  Bool, true, false, ◌&&◌, not, Option, none, some, List, [], ◌∷◌, ◌++◌, map, Result, ok, err, any,
  select, str_eq, if◌then◌else◌,
}
use vega_trix.Base.Int.{ℤ, ltb_ℤ, leb_ℤ}
use vega_trix.Base.Text.{codes, text_eq}
use vega_trix.Base.Sort.{sort_by}
use vega_trix.Domain.Money
use vega_trix.Domain.Status.{PaymentMethod, account_to_account, card, wallet, manual, method_eq}
use vega_trix.Domain.Routing.{
  RoutingPolicy, RoutingContext, RoutingDecision, RoutingRuleSpec, RoutingWhen, FallbackSpec,
  default_spec,
}
use vega_trix.Application.Ports.{
  ConnectorSnapshot, ConnectorHealth, healthy, degraded, unhealthy, unknown,
}

-- `serde_json::from_value` at the types of a policy, and the look-up of its `rules` array.
pub record PolicyJson : Type 0 where
  pub fallback_spec : String → Option FallbackSpec
  pub rules_array : String → Option (List String)
  pub rule_spec : String → Option RoutingRuleSpec
  pub rule_specs : String → Option (List RoutingRuleSpec)

abbrev pub some_of : {A : Type 0} → Option A → A → A
some_of (some a) d = a
some_of none d = d

abbrev pub filter_map : {A B : Type 0} → (A → Option B) → List A → List B
filter_map f [] = []
filter_map f (a ∷ l) = let rest = filter_map f l in elim (f a) [ none ↦ rest | some b ↦ b ∷ rest ]

abbrev pub health_eq : ConnectorHealth → ConnectorHealth → Bool
health_eq healthy healthy = true
health_eq degraded degraded = true
health_eq unhealthy unhealthy = true
health_eq unknown unknown = true
health_eq _ _ = false

-- `method_eligible`
unfoldable pub method_eligible : ConnectorSnapshot → RoutingContext → Bool
method_eligible c ctx = any (λ m. any (method_eq m) c.methods) ctx.allowed_methods

abbrev currency_matches : Option String → RoutingContext → Bool
currency_matches none ctx = true
currency_matches (some cur) ctx = text_eq (codes cur) (Money.as_str ctx.currency)

-- The `match` on the name of a method.
abbrev method_named : String → Option PaymentMethod
method_named s =
    if str_eq s "ACCOUNT_TO_ACCOUNT"
    then some account_to_account
    else if str_eq s "CARD"
    then some card
    else if str_eq s "WALLET"
    then some wallet
    else if str_eq s "MANUAL"
    then some manual
    else none

abbrev method_matches : Option String → RoutingContext → Bool
method_matches none ctx = true
method_matches (some name) ctx = elim (method_named name) [
  | none ↦ false
  | some m ↦ any (method_eq m) ctx.allowed_methods
]

-- The closure of the test on `connector_health`.
abbrev health_named : String → ConnectorSnapshot → Bool
health_named s c =
    if str_eq s "HEALTHY"
    then health_eq c.health healthy
    else if str_eq s "DEGRADED"
    then health_eq c.health degraded
    else true

abbrev health_matches : Option String → List ConnectorSnapshot → Bool
health_matches none connectors = true
health_matches (some name) connectors = any (health_named name) connectors

abbrev above_min : Option ℤ → RoutingContext → Bool
above_min none ctx = true
above_min (some low) ctx = not (ltb_ℤ ctx.amount_minor low)

abbrev below_max : Option ℤ → RoutingContext → Bool
below_max none ctx = true
below_max (some high) ctx = not (ltb_ℤ high ctx.amount_minor)

-- `rule_matches`
unfoldable pub rule_matches : RoutingWhen → RoutingContext → List ConnectorSnapshot → Bool
unfolding text_eq
rule_matches when ctx connectors =
    currency_matches when.currency ctx
    && method_matches when.method_available ctx
    && health_matches when.connector_health connectors
    && above_min when.min_amount_minor ctx
    && below_max when.max_amount_minor ctx

-- `parse_rules`
unfoldable pub parse_rules : PolicyJson → String → List RoutingRuleSpec
parse_rules json value = elim (json.rules_array value) [
  | some arr ↦ filter_map json.rule_spec arr
  | none ↦ some_of (json.rule_specs value) []
]

-- An entry of `ranked`: the priority, the connector's key and the name of the rule.
pub record Ranked : Type 0 where
  pub priority : ℤ
  pub key : String
  pub name : Option String

-- `sort_by_key(Reverse(priority))`, which is stable.
abbrev pub by_priority : Ranked → Ranked → Bool
by_priority a b = leb_ℤ b.priority a.priority

abbrev pub contains : List String → String → Bool
contains seen key = any (λ s. str_eq s key) seen

-- A rule that passes the test of the loop over the rules.
unfoldable pub rule_selects :
    RoutingContext → List ConnectorSnapshot → List String → RoutingRuleSpec → Bool
unfolding rule_matches
rule_selects ctx connectors seen r =
    rule_matches r.when ctx connectors
    && any (λ c. str_eq c.key r.select && c.enabled) connectors
    && not (contains seen r.select)

-- The loop over the rules, with the keys seen so far.
unfoldable pub from_rules :
    RoutingContext → List ConnectorSnapshot → List RoutingRuleSpec → List String → List Ranked
from_rules ctx connectors [] seen = []
from_rules ctx connectors (r ∷ rules) seen =
    let chosen =
      record { priority = r.priority; key = r.select; name = some (append "rule:" r.select) }
      ∷ from_rules ctx connectors rules (r.select ∷ seen) in
    let skipped = from_rules ctx connectors rules seen in
    if rule_selects ctx connectors seen r then chosen else skipped

-- The connectors that the defaults and the fallback draw on.
unfoldable pub is_eligible : RoutingContext → ConnectorSnapshot → Bool
unfolding method_eligible
is_eligible ctx c = c.enabled && not (health_eq c.health unhealthy) && method_eligible c ctx

-- `max_by_key` on the priority returns the last of the largest.
unfoldable pub best_of : List ConnectorSnapshot → Option ConnectorSnapshot
best_of [] = none
best_of (c ∷ cs) = elim (best_of cs) [
  | none ↦ some c
  | some best ↦ some (if ltb_ℤ best.priority c.priority then c else best)
]

abbrev pub as_ranked : String → ConnectorSnapshot → Ranked
as_ranked name c = record { priority = c.priority; key = c.key; name = some name }

abbrev default_of : Option ConnectorSnapshot → List Ranked
default_of none = []
default_of (some best) = as_ranked "default_priority" best ∷ []

-- The best eligible connector where no rule selected any.
unfoldable pub or_best : RoutingContext → List ConnectorSnapshot → List Ranked → List Ranked
unfolding best_of is_eligible
or_best ctx connectors [] = default_of (best_of (select (is_eligible ctx) connectors))
or_best ctx connectors (r ∷ rs) = r ∷ rs

-- The ranking before the fallback candidates.
unfoldable pub primary :
    RoutingContext → List ConnectorSnapshot → List RoutingRuleSpec → List Ranked
unfolding from_rules sort_by or_best
primary ctx connectors rules =
    or_best ctx connectors (sort_by by_priority (from_rules ctx connectors rules []))

-- The fallback candidates, after the keys that are ranked already.
unfoldable pub extras : RoutingContext → List ConnectorSnapshot → List String → List Ranked
unfolding sort_by is_eligible
extras ctx connectors seen = sort_by by_priority (
    map (as_ranked "fallback_priority")
      (select (λ c. is_eligible ctx c && not (contains seen c.key)) connectors))

abbrev pub key_of : Ranked → String
key_of r = r.key

unfoldable pub ranking :
    Bool → RoutingContext → List ConnectorSnapshot → List RoutingRuleSpec → List Ranked
unfolding primary extras
ranking fallback ctx connectors rules =
    let first = primary ctx connectors rules in
    if fallback then first ++ extras ctx connectors (map key_of first) else first

abbrev pub decided : FallbackSpec → Ranked → List Ranked → RoutingDecision
decided spec r rs = record {
  selected_connector_key = r.key;
  priority = r.priority;
  rule_name = r.name;
  fallback_enabled = spec.enabled;
  fallback_remaining = spec.max_attempts;
  ranked_connector_keys = map key_of (r ∷ rs);
  fallback_allowed_failure_codes = spec.allowed_failure_codes;
}

abbrev pub decision : FallbackSpec → List Ranked → Result String RoutingDecision
decision spec [] = err "no eligible connector"
decision spec (r ∷ rs) = ok (decided spec r rs)

abbrev pub spec_of : PolicyJson → Option RoutingPolicy → FallbackSpec
spec_of json none = default_spec
spec_of json (some p) = some_of (json.fallback_spec p.fallback_policy) default_spec

abbrev pub rules_of : PolicyJson → Option RoutingPolicy → List RoutingRuleSpec
rules_of json none = []
rules_of json (some p) = parse_rules json p.rules_json

-- `evaluate_policy`
unfoldable pub evaluate_policy :
    PolicyJson
    → Option RoutingPolicy
    → RoutingContext
    → List ConnectorSnapshot
    → Result String RoutingDecision
unfolding ranking parse_rules
evaluate_policy json policy ctx connectors =
    let spec = spec_of json policy in
    decision spec (ranking spec.enabled ctx connectors (rules_of json policy))

-- `fallback_spec_from_decision`
unfoldable pub fallback_spec_from_decision : RoutingDecision → FallbackSpec
fallback_spec_from_decision d = record {
  enabled = d.fallback_enabled;
  max_attempts = d.fallback_remaining;
  allowed_failure_codes = d.fallback_allowed_failure_codes;
}
