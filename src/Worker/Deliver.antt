-- ===== src/Worker/Deliver.antt =====
-- Sending the stored deliveries (crates/openpay-worker/src/lib.rs).
pub mod Retry
pub mod Breaker
use vega_trix.Base.{
  ℕ, zero, suc, ◌+◌, ◌*◌, ◌/◌, ◌^◌, min, String, Bool, true, false, not, ◌&&◌, ◌||◌, Option, none,
  some, List, [], ◌∷◌, map, Result, ok, err, ◌>>=◌ as and_then, map_err, is_empty, select, ltb, leb,
  ◌==◌, if◌then◌else◌,
}
use vega_trix.Base.Int.{pos}
use vega_trix.Base.Machine.{Uuid, Instant, seconds, unix_timestamp, i32_add}
use vega_trix.Base.Text.{codes}
use vega_trix.Domain.Webhook.{WebhookEndpoint, WebhookDelivery, delivered, retrying, dead_lettered}
use vega_trix.Crypto.Library.{Library, CryptoError}
use vega_trix.Crypto.Webhook.{IntText, sign_webhook}
use vega_trix.Crypto.Envelope.{
  Cipher, starts_with, is_encrypted_envelope, decode_master_key, open_secret_value,
}
use vega_trix.Application.Ports.{EventPayload}
use vega_trix.Application.Exec.{World, Exec, pure, query, now, ◌>>=◌, ◌>>◌}
use vega_trix.Persistence.Accounts.{get_tenant_settings_json}
use vega_trix.Persistence.Webhooks.{
  Job, pending_deliveries_full, update_delivery, record_webhook_endpoint_result,
}
use vega_trix.Worker.Net.{NetLibrary, UrlError, assert_safe_webhook_url}
use vega_trix.Worker.Send.{WorkerEnv, SendError, ssrf, body, signing, network, http, send_one}

-- `exponential_backoff` in seconds: 2^min(attempt, 10), at least 1, plus the jitter, at most an hour,
-- cut to whole seconds. The attempt is the bit pattern of an `i32`; a power of a negative number of
-- attempts is below 1.
abbrev pub jitter_unit : ℕ
jitter_unit = 2 ^ 53

unfoldable pub backoff_base : ℕ → ℕ
backoff_base attempt = if ltb attempt (2 ^ 31) then 2 ^ min attempt 10 else 1

unfoldable pub exponential_backoff : ℕ → ℕ → ℕ
exponential_backoff attempt jitter =
    min (backoff_base attempt * jitter_unit + jitter) (3600 * jitter_unit) / jitter_unit

-- The delivery after an answer with a status of success.
unfoldable pub succeeded : ℕ → Instant → WebhookDelivery → WebhookDelivery
succeeded code t d = record d { status = delivered; response_code = some code; updated_at = t }

-- The delivery after an error, before it is decided whether it is tried again.
unfoldable pub failed : String → Option ℕ → Instant → WebhookDelivery → WebhookDelivery
failed why code t d = record d {
  attempt_count = i32_add d.attempt_count 1;
  response_code = code;
  last_error_safe = some why;
  updated_at = t;
}

unfoldable pub give_up : WebhookDelivery → WebhookDelivery
give_up d = record d { status = dead_lettered }

unfoldable pub retry_at : Instant → WebhookDelivery → WebhookDelivery
retry_at t d = record d { status = retrying; next_retry_at = some t }

module _ (env : WorkerEnv) where
  abbrev pub code_of : SendError → Option ℕ
  code_of (http code) = some code
  code_of (ssrf e) = none
  code_of (body e) = none
  code_of (signing e) = none
  code_of (network e) = none

  -- The retry or the end after a failure; it reads the clock only where the delivery is tried again.
  unfoldable pub reschedule : WebhookDelivery → Exec WebhookDelivery
  reschedule d w =
      if leb env.config.webhook_max_attempts d.attempt_count then (ok (give_up d), w) else (
        ok (
            retry_at (w.clock w.read + seconds (exponential_backoff d.attempt_count (env.jitter w)))
              d),
        record w { read = suc w.read },
      )

  -- One round of `deliver_webhooks` from the answer on.
  unfoldable pub conclude : WebhookDelivery → Uuid → Result SendError ℕ → Exec WebhookDelivery
  conclude d endpoint (ok code) = do
    t ← now
    t' ← now
    query (record_webhook_endpoint_result endpoint true t')
    pure (succeeded code t d)
  conclude d endpoint (err e) = do
    t ← now
    t' ← now
    query (record_webhook_endpoint_result endpoint false t')
    reschedule (failed (env.print e) (code_of e) t d)

  -- One round of `deliver_webhooks`.
  unfoldable pub deliver_one : Job → Exec (Unit {0})
  deliver_one (d, payload, endpoint) = do
    response ← send_one env endpoint payload
    d' ← conclude d endpoint.id response
    query (update_delivery d')

  unfoldable pub deliver_each : List Job → Exec (Unit {0})
  deliver_each [] = pure tt
  deliver_each (job ∷ jobs) = deliver_one job >> deliver_each jobs

  -- `deliver_webhooks`
  unfoldable pub deliver_webhooks : Exec (Unit {0})
  deliver_webhooks = do t ← now; jobs ← query (pending_deliveries_full t 25); deliver_each jobs
