-- ===== src/Tests/Routes.antt =====
-- The routing properties on the small catalogue.
use vega_trix.Base.{◌≡◌, refl, true, false, some, none, [], ◌∷◌, ok}
use vega_trix.Base.Int.{pos}
use vega_trix.Domain.Money.{eur}
use vega_trix.Domain.Status.{account_to_account}
use vega_trix.Domain.Routing.{RoutingContext, RoutingDecision}
use vega_trix.Application.Routing.{evaluate_policy}
use vega_trix.Application.Ports.{ConnectorSnapshot, degraded}
use vega_trix.Application.Routing.Ranking.{evaluate_policy_eligible}
use vega_trix.Tests.Data.{bank, env}

abbrev sale : RoutingContext
sale = record {
  currency = eur;
  amount_minor = pos 250;
  country = "IT";
  allowed_methods = account_to_account ∷ [];
  merchant_preferences = "{}";
}

abbrev choice : RoutingDecision
choice = record {
  selected_connector_key = "bank";
  priority = pos 10;
  rule_name = some "default_priority";
  fallback_enabled = true;
  fallback_remaining = 2;
  ranked_connector_keys = "bank" ∷ [];
  fallback_allowed_failure_codes = "CONNECTOR_UNAVAILABLE" ∷ "TIMEOUT" ∷ [];
}

-- The bank is degraded, and comes second.
abbrev slow_bank : ConnectorSnapshot
slow_bank = record bank.snapshot { health = degraded }

evaluate_policy_eligible_example :
    (d : RoutingDecision) × (evaluate_policy env.policies none sale
        (record slow_bank { enabled = false } ∷ slow_bank ∷ [])
      ≡ ok d)
evaluate_policy_eligible_example =
    evaluate_policy_eligible env.policies none sale (record slow_bank { enabled = false } ∷ []) []
      slow_bank account_to_account [] [] [] [] refl (λ e. cc e) refl refl
