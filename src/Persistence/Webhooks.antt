-- ===== src/Persistence/Webhooks.antt =====
-- The webhook repository (crates/openpay-persistence/src/store.rs and map.rs).
use vega_trix.Base.{
  ℕ, suc, String, Bool, true, false, ◌&&◌, Option, none, some, List, [], ◌∷◌, ◌++◌, map, ok, err,
  ◌>>=◌, find, select, take, leb, ◌==◌, str_eq, if◌then◌else◌,
}
use vega_trix.Base.Machine.{Uuid, Instant}
use vega_trix.Base.Sort.{sort_by}
use vega_trix.Domain.Webhook.{
  WebhookEndpoint, WebhookEndpointStatus, WebhookDelivery, DeliveryStatus, active, disabled,
  pending, delivered, retrying, dead_lettered,
}
use vega_trix.Application.Ports.{EventPayload, not_found}
use vega_trix.Persistence.Db.{Db, Query}

-- `delivery_status`
unfoldable pub delivery_status : DeliveryStatus → String
delivery_status pending = "pending"
delivery_status delivered = "delivered"
delivery_status retrying = "retrying"
delivery_status dead_lettered = "dead_lettered"

-- `parse_delivery`
unfoldable pub parse_delivery : String → DeliveryStatus
parse_delivery raw =
    if str_eq raw "delivered"
    then delivered
    else if str_eq raw "retrying"
    then retrying
    else if str_eq raw "dead_lettered"
    then dead_lettered
    else pending

-- `insert_delivery_with_payload`
unfoldable pub insert_delivery_with_payload :
    WebhookDelivery → Option EventPayload → Query (Unit {0})
insert_delivery_with_payload delivery payload db = (
  ok tt,
  record db {
    webhook_deliveries =
        db.webhook_deliveries ++ record { delivery = delivery; payload = payload } ∷ [];
  },
)

-- `load_delivery_payload`
unfoldable pub load_delivery_payload : Uuid → Query (Option EventPayload)
load_delivery_payload id db = elim (find (λ row. row.delivery.id == id) db.webhook_deliveries) [
  | some row ↦ (ok row.payload, db)
  | none ↦ (err not_found, db)
]

-- `get_endpoint`
unfoldable pub get_endpoint : Uuid → Query WebhookEndpoint
get_endpoint id db = elim (find (λ e. e.id == id) db.webhook_endpoints) [
  | some e ↦ (ok e, db)
  | none ↦ (err not_found, db)
]

-- `status IN ('pending','retrying')`
abbrev pub is_open : DeliveryStatus → Bool
is_open pending = true
is_open retrying = true
is_open delivered = false
is_open dead_lettered = false

-- `next_retry_at IS NULL OR next_retry_at <= $1`
abbrev pub is_due : Instant → Option Instant → Bool
is_due now none = true
is_due now (some t) = leb t now

abbrev pub Job : Type 0
Job = WebhookDelivery × Option EventPayload × WebhookEndpoint

-- The loop that completes each row.
unfoldable pub complete_jobs : List WebhookDelivery → Query (List Job)
unfolding load_delivery_payload get_endpoint
complete_jobs [] db = (ok [], db)
complete_jobs (d ∷ ds) db =
    let (payload, _) = load_delivery_payload d.id db in
    let (endpoint, _) = get_endpoint d.webhook_endpoint_id db in
    let (rest, _) = complete_jobs ds db in
    (payload >>= λ p. endpoint >>= λ e. rest >>= λ jobs. ok ((d, p, e) ∷ jobs), db)

-- The rows of `pending_deliveries_full`.
unfoldable pub due_deliveries : Instant → ℕ → Db → List WebhookDelivery
unfolding sort_by
due_deliveries now limit db = take limit (
    sort_by (λ d e. leb d.created_at e.created_at)
      (map (λ row. row.delivery)
        (select (λ row. is_open row.delivery.status && is_due now row.delivery.next_retry_at)
          db.webhook_deliveries)))

-- `pending_deliveries_full`
unfoldable pub pending_deliveries_full : Instant → ℕ → Query (List Job)
unfolding due_deliveries complete_jobs
pending_deliveries_full now limit db = complete_jobs (due_deliveries now limit db) db

abbrev pub is_active : WebhookEndpointStatus → Bool
is_active active = true
is_active disabled = false

-- `list_endpoints`
unfoldable pub list_endpoints : Uuid → Uuid → Query (List WebhookEndpoint)
list_endpoints tenant merchant db = (
  ok (
      select (λ e. e.tenant_id == tenant && e.merchant_id == merchant && is_active e.status)
        db.webhook_endpoints),
  db,
)

-- The columns that `update_delivery` writes.
abbrev pub with_outcome : WebhookDelivery → WebhookDelivery → WebhookDelivery
with_outcome d row = record row {
  status = d.status;
  attempt_count = d.attempt_count;
  next_retry_at = d.next_retry_at;
  response_code = d.response_code;
  last_error_safe = d.last_error_safe;
  updated_at = d.updated_at;
}

-- `update_delivery`
unfoldable pub update_delivery : WebhookDelivery → Query (Unit {0})
update_delivery d db = (
  ok tt,
  record db {
    webhook_deliveries =
        map
          (λ row.
            if row.delivery.id == d.id
            then record row { delivery = with_outcome d row.delivery }
            else row)
          db.webhook_deliveries;
  },
)

-- The columns that `record_webhook_endpoint_result` writes.
abbrev pub with_result : Bool → Instant → WebhookEndpoint → WebhookEndpoint
with_result true now e = record e { failure_count = 0; updated_at = now }
with_result false now e = record e { failure_count = suc e.failure_count; updated_at = now }

-- `record_webhook_endpoint_result`
unfoldable pub record_webhook_endpoint_result : Uuid → Bool → Instant → Query (Unit {0})
record_webhook_endpoint_result id success now db = (
  ok tt,
  record db {
    webhook_endpoints =
        map (λ e. if e.id == id then with_result success now e else e) db.webhook_endpoints;
  },
)

-- `list_webhook_endpoints_admin`
unfoldable pub list_webhook_endpoints_admin : Uuid → Query (List WebhookEndpoint)
unfolding sort_by
list_webhook_endpoints_admin tenant db = (
  ok (
      sort_by (λ d e. leb e.created_at d.created_at)
        (select (λ e. e.tenant_id == tenant) db.webhook_endpoints)),
  db,
)

-- `list_recent_deliveries`
unfoldable pub list_recent_deliveries : ℕ → Query (List WebhookDelivery)
unfolding sort_by
list_recent_deliveries limit db = (
  ok (
      take limit (
        sort_by (λ d e. leb e.created_at d.created_at)
          (map (λ row. row.delivery) db.webhook_deliveries))),
  db,
)
