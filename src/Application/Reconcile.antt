-- ===== src/Application/Reconcile.antt =====
-- Polling and replaying the attempts of a payment (crates/openpay-application/src/authorize.rs).
pub mod Answers
pub mod Latest
use mathlib.Core.List.{reverse}
use vega_trix.Base.{
  ℕ, suc, ◌+◌, String, Bool, true, false, ◌||◌, Option, none, some, List, [], ◌∷◌, Result, ok, err,
  ok_or, is_ok, map_err, find, if◌then◌else◌,
}
use vega_trix.Base.Machine.{Uuid}
use vega_trix.Domain.Status as Statuses
use vega_trix.Domain.Status.{PaymentStatus, AttemptStatus, attempt_eq}
use vega_trix.Domain.Payment.{PaymentRequest, PaymentAttempt}
use vega_trix.Application.Ports.{ApplicationError, connector}
use vega_trix.Application.Exec.{World, Exec, pure, raise, lift, query, ◌>>=◌, ◌>>◌}
use vega_trix.Application.Payments.{apply_status, get_payment}
use vega_trix.Application.Attempts.{Env, asked}
use vega_trix.Application.Authorize.{AuthorizeOutcome, duplicate_callback}
use vega_trix.Application.Routing.{some_of}
use vega_trix.Persistence.Payments.{list_attempts}
use vega_trix.Connectors.Api.{ConnectorError, PaymentConnector, NormalizedAttemptStatus, display}

-- The two statuses of an attempt that wait for the connector.
unfoldable pub awaits : PaymentAttempt → Bool
awaits a =
    attempt_eq a.status AttemptStatus.ambiguous || attempt_eq a.status AttemptStatus.processing

-- `reconcilable_attempt`
unfoldable pub reconcilable_attempt : List PaymentAttempt → Option PaymentAttempt
reconcilable_attempt attempts = find awaits (reverse attempts)

-- `Iterator::last`
abbrev pub last : List PaymentAttempt → Option PaymentAttempt
last attempts = find (λ a. true) (reverse attempts)

-- The last step of `reconcile_payment`, from the connector's answer on.
unfoldable pub settle_with : PaymentRequest → AttemptStatus → Exec PaymentRequest
settle_with payment answer =
    if Statuses.eq (Statuses.into_payment_status answer) payment.status
    then pure payment
    else apply_status payment (Statuses.into_payment_status answer) "reconciler" "worker" (
        some_of (Statuses.webhook_event (Statuses.into_payment_status answer)) "payment.processing")

module _ (env : Env) where
  -- The question that both operations ask the connector of an attempt.
  unfoldable pub fetch_from : PaymentAttempt → Exec NormalizedAttemptStatus
  fetch_from attempt = do
    reference ← lift (ok_or attempt.provider_reference (connector "missing provider reference"))
    c ← lift (ok_or (env.connectors attempt.connector_key) (connector "connector missing"))
    answer ← asked (c.fetch_attempt reference)
    lift (map_err (λ e. connector (display e)) answer)

  -- `replay_connector_callback`
  unfoldable pub replay_connector_callback : Uuid → Uuid → Exec AuthorizeOutcome
  replay_connector_callback tenant id = do
    get_payment tenant id
    attempts ← query (list_attempts tenant id)
    attempt ← lift (ok_or (last attempts) (connector "no attempt to replay"))
    fetch_from attempt
    current ← get_payment tenant id
    pure (record {
      payment = current;
      connector_key = attempt.connector_key;
      explanation = duplicate_callback (some_of attempt.provider_reference "");
      idempotent_replay = true;
    })

  unfoldable pub poll_attempts : PaymentRequest → List PaymentAttempt → Exec PaymentRequest
  unfolding settle_with
  poll_attempts payment attempts = do
    attempt ← lift (ok_or (reconcilable_attempt attempts) (connector "nothing to reconcile"))
    fetched ← fetch_from attempt
    settle_with payment fetched.status

  -- `reconcile_payment` on the payment it found
  unfoldable pub reconcile_found : Uuid → Uuid → PaymentRequest → Exec PaymentRequest
  unfolding poll_attempts
  reconcile_found tenant id payment =
      if Statuses.eq payment.status PaymentStatus.processing
      then (query (list_attempts tenant id) >>= poll_attempts payment)
      else pure payment

  -- `reconcile_payment`
  unfoldable pub reconcile_payment : Uuid → Uuid → Exec PaymentRequest
  unfolding reconcile_found
  reconcile_payment tenant id = do
    payment ← get_payment tenant id
    reconcile_found tenant id payment

  -- The loop of `reconcile_stale_attempts` over the payments that the query listed.
  unfoldable pub reconcile_each : List (Uuid × Uuid) → ℕ → World → ℕ × World
  unfolding reconcile_payment
  reconcile_each [] n w = (n, w)
  reconcile_each ((tenant, id) ∷ rows) n w =
      let (r, w') = reconcile_payment tenant id w in
      reconcile_each rows (if is_ok r then n + 1 else n) w'
