-- ===== src/Domain/Routing.antt =====
-- Routing data and the fallback rule (crates/openpay-domain/src/routing.rs). JSON values are kept as
-- their text.
pub mod Bounds
use vega_trix.Base.{ℕ, String, Bool, true, ◌&&◌, Option, List, [], ◌∷◌, ltb, any, if◌then◌else◌}
use vega_trix.Base.Int.{ℤ}
use vega_trix.Base.Text.{eq_ignore_ascii_case}
use vega_trix.Domain.Money.{Currency}
use vega_trix.Domain.Status.{PaymentMethod}

pub data RoutingPolicyStatus : Type 0 where
  active disabled : RoutingPolicyStatus

pub record RoutingPolicy : Type 0 where
  pub id : ℕ
  pub tenant_id : ℕ
  pub name : String
  pub status : RoutingPolicyStatus
  pub rules_json : String
  pub fallback_policy : String
  pub created_at : ℕ
  pub updated_at : ℕ

pub record RoutingContext : Type 0 where
  pub currency : Currency
  pub amount_minor : ℤ
  pub country : String
  pub allowed_methods : List PaymentMethod
  pub merchant_preferences : String

-- The explanation, a sentence for the operator, is left out.
pub record RoutingDecision : Type 0 where
  pub selected_connector_key : String
  pub priority : ℤ
  pub rule_name : Option String
  pub fallback_enabled : Bool
  pub fallback_remaining : ℕ
  pub ranked_connector_keys : List String
  pub fallback_allowed_failure_codes : List String

pub record RoutingWhen : Type 0 where
  pub currency : Option String
  pub method_available : Option String
  pub connector_health : Option String
  pub min_amount_minor : Option ℤ
  pub max_amount_minor : Option ℤ

pub record RoutingRuleSpec : Type 0 where
  pub when : RoutingWhen
  pub select : String
  pub priority : ℤ

pub record FallbackSpec : Type 0 where
  pub enabled : Bool
  pub max_attempts : ℕ
  pub allowed_failure_codes : List String

-- `FallbackSpec::default`
unfoldable pub default_spec : FallbackSpec
default_spec = record {
  enabled = true;
  max_attempts = 2;
  allowed_failure_codes = "CONNECTOR_UNAVAILABLE" ∷ "TIMEOUT" ∷ [];
}

-- `u8::max`
abbrev pub max : ℕ → ℕ → ℕ
max a b = if ltb a b then b else a

unfoldable pub allows_failure : FallbackSpec → String → Bool
allows_failure spec code = any (λ c. eq_ignore_ascii_case c code) spec.allowed_failure_codes

unfoldable pub should_try_next : FallbackSpec → String → ℕ → ℕ → Bool
should_try_next spec code attempts_used remaining =
    spec.enabled
    && ltb 0 remaining
    && ltb attempts_used (max spec.max_attempts 1)
    && allows_failure spec code
