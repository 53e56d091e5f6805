-- ===== src/Application/Routing/Ranking.antt =====
-- Which connectors a decision can name, and when there is one
-- (crates/openpay-application/src/routing.rs).
use vega_trix.Base.{
  inl, inr, ◌≡◌, refl, ◌∙◌, ◌≢◌, String, Bool, true, false, ◌&&◌, ◌||◌, not, Option, none, some,
  List, [], ◌∷◌, ◌++◌, map, ok, arith, any, any-at, select, str_eq, eq_refl, Option-cases,
}
use mathlib.Core.Path.{subst}
use vega_trix.Base.Sort.{sort_by, any-sort_by}
use vega_trix.Domain.Routing.{
  RoutingPolicy, RoutingContext, RoutingDecision, RoutingRuleSpec, FallbackSpec,
}
use vega_trix.Application.Ports.{
  ConnectorSnapshot, ConnectorHealth, healthy, degraded, unhealthy, unknown,
}
use vega_trix.Domain.Status.{PaymentMethod, account_to_account, card, wallet, manual, method_eq}
use vega_trix.Application.Routing.{
  PolicyJson, Ranked, by_priority, contains, rule_selects, from_rules, health_eq, method_eligible,
  is_eligible, best_of, as_ranked, primary, or_best, extras, key_of, ranking, decided, decision,
  spec_of, rules_of, evaluate_policy,
}

-- The catalogue has an enabled connector with the key.
abbrev pub is_enabled : List ConnectorSnapshot → String → Bool
is_enabled connectors key = any (λ c. str_eq c.key key && c.enabled) connectors

abbrev is_bad : List ConnectorSnapshot → Ranked → Bool
is_bad connectors r = not (is_enabled connectors r.key)

any-append :
    {A : Type 0} (p : A → Bool) (xs ys : List A) → any p (xs ++ ys) ≡ (any p xs || any p ys)
any-append p [] ys = refl
any-append p (x ∷ xs) ys = ground (arith, any-append p xs ys)

from_rules_enabled :
    (ctx : RoutingContext) (connectors : List ConnectorSnapshot) (rules : List RoutingRuleSpec)
    (seen : List String)
    → any (is_bad connectors) (from_rules ctx connectors rules seen) ≡ false
unfolding from_rules rule_selects
from_rules_enabled ctx connectors [] seen = refl
from_rules_enabled ctx connectors (r ∷ rules) seen = ground (
  arith,
  from_rules_enabled ctx connectors rules seen,
  from_rules_enabled ctx connectors rules (r.select ∷ seen),
)

best_of-any :
    (q : ConnectorSnapshot → Bool) (xs : List ConnectorSnapshot) (b : ConnectorSnapshot)
    → best_of xs ≡ some b
    → q b ≡ true
    → any q xs ≡ true
unfolding best_of
best_of-any q [] b h ok_b = cc
best_of-any q (c ∷ cs) b h ok_b = elim (Option-cases (best_of cs)) [
  | inl e ↦ ground (arith, e)
  | inr (best, e) ↦ ground (arith, e, best_of-any q cs best e)
]

any-select :
    (q f : ConnectorSnapshot → Bool) (xs : List ConnectorSnapshot)
    → any q (select f xs) ≡ true
    → any q xs ≡ true
any-select q f [] h = h
any-select q f (c ∷ cs) h = ground (arith, any-select q f cs)

any-not-select :
    (f : ConnectorSnapshot → Bool) (xs : List ConnectorSnapshot)
    → any (λ c. not (f c)) (select f xs) ≡ false
any-not-select f [] = refl
any-not-select f (c ∷ cs) = ground (arith, any-not-select f cs)

best_of_enabled :
    (ctx : RoutingContext) (xs : List ConnectorSnapshot) (b : ConnectorSnapshot)
    → best_of (select (is_eligible ctx) xs) ≡ some b
    → is_enabled xs b.key ≡ true
unfolding is_eligible
best_of_enabled ctx xs b h =
    any-select (λ c. str_eq c.key b.key && c.enabled) (is_eligible ctx) xs
      (best_of-any (λ c. str_eq c.key b.key && c.enabled) (select (is_eligible ctx) xs) b h
        (ground (
          arith,
          best_of-any (λ c. not (is_eligible ctx c)) (select (is_eligible ctx) xs) b h,
          any-not-select (is_eligible ctx) xs,
          eq_refl b.key,
        )))

extras_enabled :
    (whole : List ConnectorSnapshot) (ctx : RoutingContext) (seen : List String)
    (xs : List ConnectorSnapshot)
    → ((k : String) → is_enabled xs k ≡ true → is_enabled whole k ≡ true)
    → any (is_bad whole) (
        map
          (as_ranked "fallback_priority")
          (select (λ c. is_eligible ctx c && not (contains seen c.key)) xs))
      ≡ false
unfolding is_eligible
extras_enabled whole ctx seen [] inside = refl
extras_enabled whole ctx seen (c ∷ cs) inside = ground (
  arith,
  extras_enabled whole ctx seen cs (λ k h. inside k (ground (arith, h))),
  inside c.key,
  eq_refl c.key,
)

or_best_enabled :
    (ctx : RoutingContext) (connectors : List ConnectorSnapshot) (l : List Ranked)
    → any (is_bad connectors) l ≡ false
    → any (is_bad connectors) (or_best ctx connectors l) ≡ false
unfolding or_best
or_best_enabled ctx connectors (r ∷ rs) good = good
or_best_enabled ctx connectors [] good =
    elim (Option-cases (best_of (select (is_eligible ctx) connectors))) [
      | inl e ↦ rw e refl
      | inr (b, e) ↦ rw e (ground (arith, best_of_enabled ctx connectors b e))
    ]

ranking_enabled :
    (fallback : Bool) (ctx : RoutingContext) (connectors : List ConnectorSnapshot)
    (rules : List RoutingRuleSpec)
    → any (is_bad connectors) (ranking fallback ctx connectors rules) ≡ false
unfolding ranking primary extras
ranking_enabled fallback ctx connectors rules =
    let chosen = from_rules ctx connectors rules [] in
    let first = primary ctx connectors rules in
    let first_good : any (is_bad connectors) first ≡ false =
      or_best_enabled ctx connectors (sort_by by_priority chosen) (
        any-sort_by by_priority (is_bad connectors) chosen
        ∙ from_rules_enabled ctx connectors rules []) in
    let more_good : any (is_bad connectors) (extras ctx connectors (map key_of first)) ≡ false =
      any-sort_by by_priority (is_bad connectors) _
      ∙ extras_enabled connectors ctx (map key_of first) connectors (λ k h. h) in
    ground (
      arith,
      first_good,
      more_good,
      any-append (is_bad connectors) first (extras ctx connectors (map key_of first)),
    )

any_bad-map :
    (connectors : List ConnectorSnapshot) (l : List Ranked)
    → any (λ k. not (is_enabled connectors k)) (map key_of l) ≡ any (is_bad connectors) l
any_bad-map connectors [] = refl
any_bad-map connectors (r ∷ rs) = ground (arith, any_bad-map connectors rs)

decision_keys :
    (spec : FallbackSpec) (l : List Ranked) (d : RoutingDecision)
    → decision spec l ≡ ok d
    → (d.ranked_connector_keys ≡ map key_of l)
      × (rest : List String) × (d.ranked_connector_keys ≡ d.selected_connector_key ∷ rest)
decision_keys spec [] d h = cc
decision_keys spec (r ∷ rs) d h =
    subst
      (λ (d : RoutingDecision).
        (d.ranked_connector_keys ≡ map key_of (r ∷ rs))
        × (rest : List String) × (d.ranked_connector_keys ≡ d.selected_connector_key ∷ rest))
      {x = decided spec r rs} {y = d} (cc h) (refl, map key_of rs, refl)

-- A decision ranks only keys of connectors that the catalogue lists as enabled, and the connector it
-- selects is the first of them.
pub evaluate_policy_enabled :
    (json : PolicyJson) (policy : Option RoutingPolicy) (ctx : RoutingContext)
    (connectors : List ConnectorSnapshot) (d : RoutingDecision)
    → evaluate_policy json policy ctx connectors ≡ ok d
    → (any (λ k. not (is_enabled connectors k)) d.ranked_connector_keys ≡ false)
      × (rest : List String) × (d.ranked_connector_keys ≡ d.selected_connector_key ∷ rest)
unfolding evaluate_policy
evaluate_policy_enabled json policy ctx connectors d h =
    let spec = spec_of json policy in
    let l = ranking spec.enabled ctx connectors (rules_of json policy) in
    let (keys, rest, first) = decision_keys spec l d h in
    (
      rw keys (
          any_bad-map connectors l
          ∙ ranking_enabled spec.enabled ctx connectors (rules_of json policy)),
      rest,
      first,
    )

best_of_some :
    (f : ConnectorSnapshot → Bool) (xs : List ConnectorSnapshot)
    → any f xs ≡ true
    → best_of (select f xs) ≢ none
unfolding best_of
best_of_some f [] h e = cc
best_of_some f (c ∷ cs) h e = ground (arith, best_of_some f cs)

or_best_some :
    (ctx : RoutingContext) (connectors : List ConnectorSnapshot) (l : List Ranked)
    → any (is_eligible ctx) connectors ≡ true
    → (r : Ranked) × (rs : List Ranked) × (or_best ctx connectors l ≡ r ∷ rs)
unfolding or_best
or_best_some ctx connectors (r ∷ rs) h = (r, rs, refl)
or_best_some ctx connectors [] h =
    elim (Option-cases (best_of (select (is_eligible ctx) connectors))) [
      | inl e ↦ absurd (best_of_some (is_eligible ctx) connectors h e)
      | inr (b, e) ↦ (as_ranked "default_priority" b, [], rw e refl)
    ]

ranking_some :
    (fallback : Bool) (ctx : RoutingContext) (connectors : List ConnectorSnapshot)
    (rules : List RoutingRuleSpec)
    → any (is_eligible ctx) connectors ≡ true
    → (r : Ranked) × (rs : List Ranked) × (ranking fallback ctx connectors rules ≡ r ∷ rs)
unfolding ranking primary
ranking_some true ctx connectors rules h =
    let (r, rs, e) =
      or_best_some ctx connectors (sort_by by_priority (from_rules ctx connectors rules [])) h in
    (r, rs ++ extras ctx connectors (map key_of (r ∷ rs)), rw e refl)
ranking_some false ctx connectors rules h =
    or_best_some ctx connectors (sort_by by_priority (from_rules ctx connectors rules [])) h

decision_some :
    (spec : FallbackSpec) (l : List Ranked) (r : Ranked) (rs : List Ranked)
    → l ≡ r ∷ rs
    → (d : RoutingDecision) × (decision spec l ≡ ok d)
decision_some spec [] r rs e = cc
decision_some spec (q ∷ qs) r rs e = (_, refl)

method_eq_refl : (m : PaymentMethod) → method_eq m m ≡ true
unfolding method_eq
method_eq_refl account_to_account = refl
method_eq_refl card = refl
method_eq_refl wallet = refl
method_eq_refl manual = refl

health_other : (h : ConnectorHealth) → h ≢ unhealthy → health_eq h unhealthy ≡ false
health_other healthy h = refl
health_other degraded h = refl
health_other unhealthy h = absurd (h refl)
health_other unknown h = refl

is_eligible_when :
    (ctx : RoutingContext) (c : ConnectorSnapshot) (m : PaymentMethod)
    (offered offered' asked asked' : List PaymentMethod)
    → c.enabled ≡ true
    → c.health ≢ unhealthy
    → c.methods ≡ offered ++ m ∷ offered'
    → ctx.allowed_methods ≡ asked ++ m ∷ asked'
    → is_eligible ctx c ≡ true
unfolding is_eligible method_eligible
is_eligible_when ctx c m offered offered' asked asked' on well offers allows =
    rw
      (
        on,
        health_other c.health well,
        offers,
        allows,
        any-at (λ k. any (method_eq k) (offered ++ m ∷ offered')) m asked asked'
            (any-at (method_eq m) m offered offered' (method_eq_refl m)),
      )
      refl

-- A decision is made whenever some connector of the catalogue is enabled, is not unhealthy (it may be
-- degraded or unknown) and offers a method that the payment allows, whatever the policy says.
pub evaluate_policy_eligible :
    (json : PolicyJson) (policy : Option RoutingPolicy) (ctx : RoutingContext)
    (before after : List ConnectorSnapshot) (c : ConnectorSnapshot) (m : PaymentMethod)
    (offered offered' asked asked' : List PaymentMethod)
    → c.enabled ≡ true
    → c.health ≢ unhealthy
    → c.methods ≡ offered ++ m ∷ offered'
    → ctx.allowed_methods ≡ asked ++ m ∷ asked'
    → (d : RoutingDecision) × (evaluate_policy json policy ctx (before ++ c ∷ after) ≡ ok d)
unfolding evaluate_policy
evaluate_policy_eligible json policy ctx before after c m offered offered' asked asked' on well
      offers allows =
    let spec = spec_of json policy in
    let rules = rules_of json policy in
    let eligible = is_eligible_when ctx c m offered offered' asked asked' on well offers allows in
    let (r, rs, e) =
      ranking_some spec.enabled ctx (before ++ c ∷ after) rules
        (any-at (is_eligible ctx) c before after eligible) in
    decision_some spec (ranking spec.enabled ctx (before ++ c ∷ after) rules) r rs e
