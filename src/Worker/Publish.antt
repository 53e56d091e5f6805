-- ===== src/Worker/Publish.antt =====
-- The outbox becomes deliveries (crates/openpay-worker/src/lib.rs). An identifier of an event is kept
-- as its UUID, so it always parses; every outbox record of the program is a payment's and names its
-- merchant. The text of an error is kept as the error.
pub mod Probe
use vega_trix.Base.{
  ℕ, String, Bool, true, false, not, ◌&&◌, ◌||◌, Option, none, some, List, [], ◌∷◌, Result, ok, err,
  any, is_empty, ◌==◌, str_eq, if◌then◌else◌,
}
use vega_trix.Base.Machine.{Uuid, Instant}
use vega_trix.Domain.Webhook.{WebhookEndpoint, WebhookDelivery, pending}
use vega_trix.Application.Ports.{OutboxRecord}
use vega_trix.Application.Exec.{Exec, pure, query, now, draw, ◌>>=◌, ◌>>◌}
use vega_trix.Persistence.Outbox.{fetch_pending, mark_published}
use vega_trix.Persistence.Webhooks.{list_endpoints, insert_delivery_with_payload}
use vega_trix.Worker.Circuit.{CircuitState, closed, opened, half_open, webhook_circuit_state}

-- The test on the endpoint's event types.
unfoldable pub subscribes : WebhookEndpoint → OutboxRecord → Bool
subscribes endpoint r =
    is_empty endpoint.event_types || any (λ t. str_eq t r.event_type) endpoint.event_types

-- The delivery that is stored for an endpoint.
unfoldable pub new_delivery :
    Uuid → WebhookEndpoint → OutboxRecord → (t1 t2 t3 : Instant) → WebhookDelivery
new_delivery id endpoint r t1 t2 t3 = record {
  id = id;
  webhook_endpoint_id = endpoint.id;
  event_id = r.id;
  payload_version = "2026-08-18";
  status = pending;
  attempt_count = 0;
  next_retry_at = some t1;
  response_code = none;
  last_error_safe = none;
  created_at = t2;
  updated_at = t3;
}

unfoldable pub queue_delivery : OutboxRecord → WebhookEndpoint → Exec (Unit {0})
queue_delivery r endpoint = do
  id ← draw
  t1 ← now
  t2 ← now
  t3 ← now
  query (insert_delivery_with_payload (new_delivery id endpoint r t1 t2 t3) (some r.payload))

-- What the worker does with an endpoint, and the endpoints that were probed afterwards.
unfoldable pub admit : List Uuid → WebhookEndpoint → CircuitState → Bool × List Uuid
admit probed endpoint opened = (false, probed)
admit probed endpoint half_open =
    if any (λ id. id == endpoint.id) probed then (false, probed) else (true, endpoint.id ∷ probed)
admit probed endpoint closed = (true, probed)

abbrev pub state_at : Instant → WebhookEndpoint → CircuitState
state_at t endpoint = webhook_circuit_state endpoint.failure_count endpoint.updated_at t

-- One round of the inner loop.
unfoldable pub publish_to : OutboxRecord → Instant → List Uuid → WebhookEndpoint → Exec (List Uuid)
publish_to r t probed endpoint =
    if not (subscribes endpoint r)
    then pure probed
    else let (queued, probed') = admit probed endpoint (state_at t endpoint) in
      if queued then queue_delivery r endpoint >> pure probed' else pure probed'

unfoldable pub publish_each :
    OutboxRecord → Instant → List Uuid → List WebhookEndpoint → Exec (List Uuid)
publish_each r t probed [] = pure probed
publish_each r t probed (e ∷ es) =
    publish_to r t probed e >>= λ probed'. publish_each r t probed' es

-- One round of the outer loop.
unfoldable pub publish_record : Instant → List Uuid → OutboxRecord → Exec (List Uuid)
publish_record t probed r = do
  endpoints ← query (list_endpoints r.tenant_id r.payload.merchant_id)
  probed' ← publish_each r t probed endpoints
  done ← now
  query (mark_published r.id done)
  pure probed'

unfoldable pub publish_all : Instant → List Uuid → List OutboxRecord → Exec (Unit {0})
publish_all t probed [] = pure tt
publish_all t probed (r ∷ rs) = publish_record t probed r >>= λ probed'. publish_all t probed' rs

-- `drain_outbox`
unfoldable pub drain_outbox : Exec (Unit {0})
drain_outbox = do records ← query (fetch_pending 50); t ← now; publish_all t [] records
