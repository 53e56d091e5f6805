-- ===== src/Application/Authorize.antt =====
-- Authorising a payment (crates/openpay-application/src/authorize.rs).
pub mod Outcome
pub mod Nonces
use Prim.Native.String.{String, ◌++◌ as append}
use vega_trix.Base.{
  ℕ, suc, ◌+◌, ◌-◌, ◌%◌, Bool, true, false, ◌&&◌, ◌||◌, not, Option, none, some, List, [], ◌∷◌,
  ◌++◌, Result, ok, err, map_err, is_ok, is_empty, length, take, find, ltb, leb, ◌==◌, str_eq,
  if◌then◌else◌,
}
use vega_trix.Base.Machine.{Uuid, Instant}
use mathlib.Core.List.{reverse}
use vega_trix.Domain.Money.{Currency}
use vega_trix.Domain.Status as Statuses
use vega_trix.Domain.Status.{
  PaymentStatus, AttemptStatus, PaymentMethod, account_to_account, attempt_eq,
}
use vega_trix.Domain.Payment.{PaymentRequest, PaymentAttempt}
use vega_trix.Domain.Routing.{RoutingDecision, RoutingContext, FallbackSpec, should_try_next, max}
use vega_trix.Application.Ports.{ApplicationError, domain, repository, routing, connector}
use vega_trix.Application.Exec.{World, Exec, pure, raise, lift, query, now, draw, ◌>>=◌, ◌>>◌}
use vega_trix.Application.Payments.{apply_status, get_payment}
use vega_trix.Application.Routing.{
  PolicyJson, evaluate_policy, fallback_spec_from_decision, some_of,
}
use vega_trix.Persistence.Payments.{insert_attempt, list_attempts}
use vega_trix.Persistence.Catalog.{get_active_policy, list_enabled, connector_id_by_key}
use vega_trix.Connectors.Api.{
  PaymentConnector, ConnectorError, CreatePaymentAttemptOutput, NormalizedAttemptStatus, Call,
  Sandbox, failure_code, safe_message,
}
use vega_trix.Application.Attempts.{Env, Progress, attempt_loop}

pub data PayerDecision : Type 0 where
  approve reject : PayerDecision

-- The explanations of an outcome, by their parts.
pub data Explanation : Type 0 where
  already_terminal payer_rejected : Explanation
  tried : List String → Explanation
  duplicate_callback : String → Explanation

pub record AuthorizeOutcome : Type 0 where
  pub payment : PaymentRequest
  pub connector_key : String
  pub explanation : Explanation
  pub idempotent_replay : Bool

-- `terminal`
unfoldable pub terminal : PaymentStatus → Bool
terminal PaymentStatus.settled = true
terminal PaymentStatus.failed = true
terminal PaymentStatus.cancelled = true
terminal PaymentStatus.expired = true
terminal PaymentStatus.refunded = true
terminal _ = false

abbrev pub or_else : {A : Type 0} → Option A → Option A → Option A
or_else (some a) b = some a
or_else none b = b

-- `clamp(1, 8)`
abbrev pub clamp_attempts : ℕ → ℕ
clamp_attempts n = if ltb n 1 then 1 else if ltb 8 n then 8 else n

-- The candidates that the loop walks over.
unfoldable pub candidates : RoutingDecision → List String
candidates route =
    if is_empty route.ranked_connector_keys
    then route.selected_connector_key ∷ []
    else route.ranked_connector_keys

unfoldable pub max_attempts : FallbackSpec → ℕ
max_attempts spec = if spec.enabled then clamp_attempts spec.max_attempts else 1

-- What follows the loop.
unfoldable pub conclude : PaymentRequest → Progress → Exec AuthorizeOutcome
conclude processing progress = do
  updated ←
      apply_status processing progress.last_status "connector" progress.last_key
        (some_of (Statuses.webhook_event progress.last_status) "payment.processing")
  pure (record {
    payment = updated;
    connector_key = progress.last_key;
    explanation = tried progress.tried_keys;
    idempotent_replay = false;
  })

unfoldable pub start_processing : PaymentRequest → Exec PaymentRequest
start_processing payment =
    if Statuses.eq payment.status PaymentStatus.processing
    then pure payment
    else apply_status payment PaymentStatus.processing "payer" "demo-wallet" "payment.processing"

module _ (env : Env) where
  -- `decide_route`
  unfoldable pub decide_route : PaymentRequest → Exec RoutingDecision
  decide_route payment = do
    policy ← query (get_active_policy payment.tenant_id)
    connectors ← query (list_enabled payment.tenant_id)
    lift (
        map_err routing (
          evaluate_policy env.policies policy
            (record {
              currency = payment.currency;
              amount_minor = payment.amount_minor.get;
              country = "IT";
              allowed_methods = payment.allowed_methods;
              merchant_preferences = "{}";
            })
            connectors))

  -- From `decide_route` on, with the payment that is being processed.
  unfoldable pub route_and_try : PaymentRequest → Option String → Exec AuthorizeOutcome
  unfolding decide_route attempt_loop conclude
  route_and_try processing scenario = do
    route ← decide_route processing
    progress ←
        attempt_loop env (fallback_spec_from_decision route) processing
          (or_else scenario (env.scenario processing.metadata))
          (take (max_attempts (fallback_spec_from_decision route)) (candidates route)) 0
          (record {
            last_status = PaymentStatus.processing;
            last_key = route.selected_connector_key;
            tried_keys = [];
          })
    conclude processing progress

  -- What `authorize_payment` does with the payment it found.
  unfoldable pub decide : PaymentRequest → PayerDecision → Option String → Exec AuthorizeOutcome
  unfolding route_and_try start_processing
  decide payment reject scenario = do
    updated ← apply_status payment PaymentStatus.failed "payer" "demo-wallet" "payment.failed"
    pure (record {
      payment = updated;
      connector_key = "";
      explanation = payer_rejected;
      idempotent_replay = false;
    })
  decide payment approve scenario = do
    processing ← start_processing payment
    route_and_try processing scenario

  -- `authorize_payment`
  unfoldable pub authorize_payment :
      Uuid → Uuid → PayerDecision → Option String → Exec AuthorizeOutcome
  unfolding decide
  authorize_payment tenant id decision scenario = do
    payment ← get_payment tenant id
    if terminal payment.status
        then pure (record {
          payment = payment;
          connector_key = "";
          explanation = already_terminal;
          idempotent_replay = true;
        })
        else decide payment decision scenario
