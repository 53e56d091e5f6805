-- ===== src/Persistence/Admin.antt =====
-- The queries of the administration (crates/openpay-persistence/src/settings.rs and store.rs). A time
-- stamp of a row that no query reads is left out.
pub mod Updates
use vega_trix.Base.{
  ℕ, String, Bool, true, false, ◌&&◌, ◌||◌, Option, none, some, List, [], ◌∷◌, map, ok, err, find,
  select, any, take, ltb, leb, ◌==◌, str_eq, if◌then◌else◌, first_of,
}
use vega_trix.Base.Int.{leb_ℤ, ltb_ℤ}
use vega_trix.Base.Machine.{Uuid, Instant}
use vega_trix.Base.Sort.{sort_by}
use vega_trix.Domain.Payment.{PaymentAttempt}
use vega_trix.Domain.Routing.{RoutingPolicy, RoutingPolicyStatus}
use vega_trix.Domain.Webhook.{WebhookEndpoint, WebhookEndpointStatus, WebhookDelivery}
use vega_trix.Application.Ports.{RepositoryError, EventPayload, not_found}
use vega_trix.Persistence.Db.{Db, Query, ConnectorRow, DeliveryRow, MerchantRow}
use vega_trix.Persistence.Catalog.{is_visible}

-- `COALESCE`
abbrev pub or_kept : {A : Type 0} → Option A → A → A
or_kept none old = old
or_kept (some new) old = new

-- The row of a query, or that there is none.
abbrev pub found : {A : Type 0} → Option A → Query A
found none db = (err not_found, db)
found (some row) db = (ok row, db)

-- `id = $1 AND tenant_id = $2`
abbrev pub is_own : Uuid → Uuid → WebhookEndpoint → Bool
is_own tenant id e = e.id == id && e.tenant_id == tenant

pub record EndpointChange : Type 0 where
  pub url : Option (List ℕ)
  pub event_types : Option (List String)
  pub status : Option WebhookEndpointStatus
  pub signing_secret_ref : Option (List ℕ)

abbrev pub changed_endpoint : EndpointChange → Instant → WebhookEndpoint → WebhookEndpoint
changed_endpoint c now e = record e {
  url = or_kept c.url e.url;
  event_types = or_kept c.event_types e.event_types;
  status = or_kept c.status e.status;
  signing_secret_ref = or_kept c.signing_secret_ref e.signing_secret_ref;
  updated_at = now;
}

-- The `UPDATE` of a row that has the identifier and the tenant.
abbrev pub updated : {A : Type 0} → (A → Bool) → (A → A) → List A → List A
updated p f rows = map (λ row. if p row then f row else row) rows

-- `update_webhook_endpoint`
unfoldable pub update_webhook_endpoint :
    Uuid → Uuid → EndpointChange → Instant → Query WebhookEndpoint
update_webhook_endpoint tenant id c now db =
    let rows : List WebhookEndpoint =
      updated (is_own tenant id) (changed_endpoint c now) db.webhook_endpoints in
    found (find (is_own tenant id) rows) (record db { webhook_endpoints = rows })

pub record PolicyChange : Type 0 where
  pub name : Option String
  pub rules_json : Option String
  pub fallback_policy : Option String
  pub status : Option RoutingPolicyStatus

abbrev pub changed_policy : PolicyChange → Instant → RoutingPolicy → RoutingPolicy
changed_policy c now p = record p {
  name = or_kept c.name p.name;
  rules_json = or_kept c.rules_json p.rules_json;
  fallback_policy = or_kept c.fallback_policy p.fallback_policy;
  status = or_kept c.status p.status;
  updated_at = now;
}

abbrev pub is_own_policy : Uuid → Uuid → RoutingPolicy → Bool
is_own_policy tenant id p = p.id == id && p.tenant_id == tenant

-- `update_routing_policy`
unfoldable pub update_routing_policy : Uuid → Uuid → PolicyChange → Instant → Query RoutingPolicy
update_routing_policy tenant id c now db =
    let rows : List RoutingPolicy =
      updated (is_own_policy tenant id) (changed_policy c now) db.policies in
    found (find (is_own_policy tenant id) rows) (record db { policies = rows })

-- `list_routing_policies`
unfoldable pub list_routing_policies : Uuid → Query (List RoutingPolicy)
unfolding sort_by
list_routing_policies tenant db = (
  ok (
      sort_by (λ p q. leb q.created_at p.created_at)
        (select (λ p. p.tenant_id == tenant) db.policies)),
  db,
)

-- `ORDER BY priority DESC, key`, at the order that the database gives to texts
abbrev before_in_list : (String → String → Bool) → ConnectorRow → ConnectorRow → Bool
before_in_list collate r s =
    ltb_ℤ s.snapshot.priority r.snapshot.priority
    || (leb_ℤ s.snapshot.priority r.snapshot.priority && collate r.snapshot.key s.snapshot.key)

-- `list_connectors_admin`
unfoldable pub list_connectors_admin : (String → String → Bool) → Uuid → Query (List ConnectorRow)
unfolding sort_by
list_connectors_admin collate tenant db =
    (ok (sort_by (before_in_list collate) (select (is_visible tenant) db.connectors)), db)

-- `key = $1 AND (tenant_id IS NULL OR tenant_id = $2)`
abbrev pub is_reached : Uuid → String → ConnectorRow → Bool
is_reached tenant key row = str_eq row.snapshot.key key && is_visible tenant row

abbrev pub changed_connector : Option Bool → Option (List ℕ) → ConnectorRow → ConnectorRow
changed_connector enabled refer row = record row {
  snapshot = record row.snapshot { enabled = or_kept enabled row.snapshot.enabled };
  configuration_ref = or_kept refer row.configuration_ref;
}

-- `update_connector_admin`; the status is whether it is `enabled`
unfoldable pub update_connector_admin :
    Uuid → String → Option Bool → Option (List ℕ) → Query ConnectorRow
update_connector_admin tenant key enabled refer db =
    let rows : List ConnectorRow =
      updated (is_reached tenant key) (changed_connector enabled refer) db.connectors in
    found (find (is_reached tenant key) rows) (record db { connectors = rows })

-- `first_merchant_id`
unfoldable pub first_merchant_id : Uuid → Query Uuid
unfolding sort_by
first_merchant_id tenant db =
    elim (first_of (
      sort_by (λ m n. leb m.created_at n.created_at)
        (select (λ m. m.tenant_id == tenant) db.merchants))) [
          | none ↦ (err not_found, db)
          | some m ↦ (ok m.id, db)
        ]

-- `list_merchants`, at the order that the database gives to texts
unfoldable pub list_merchants : (String → String → Bool) → Uuid → Query (List MerchantRow)
unfolding sort_by
list_merchants collate tenant db = (
  ok (
      sort_by (λ m n. collate m.display_name n.display_name)
        (select (λ m. m.tenant_id == tenant) db.merchants)),
  db,
)

-- `load_latest_tenant_settings_json`
unfoldable pub load_latest_tenant_settings_json : Query (Option String)
unfolding sort_by
load_latest_tenant_settings_json db =
    elim (first_of (sort_by (λ r s. leb s.updated_at r.updated_at) db.tenant_settings)) [
      | none ↦ (ok none, db)
      | some row ↦ (ok (some row.settings), db)
    ]

-- `get_attempt`
unfoldable pub get_attempt : Uuid → Uuid → Query PaymentAttempt
get_attempt tenant id db = found (find (λ a. a.id == id && a.tenant_id == tenant) db.attempts) db

abbrev pub is_about : Uuid → Option EventPayload → Bool
is_about id none = false
is_about id (some payload) = payload.payment_id == id

-- The join of `list_deliveries_for_payment` on the endpoint.
abbrev pub is_sent_by : Uuid → Db → WebhookDelivery → Bool
is_sent_by tenant db d =
    any (λ e. e.id == d.webhook_endpoint_id && e.tenant_id == tenant) db.webhook_endpoints

-- `list_deliveries_for_payment`
unfoldable pub list_deliveries_for_payment : Uuid → Uuid → Query (List WebhookDelivery)
unfolding sort_by
list_deliveries_for_payment tenant id db = (
  ok (
      sort_by (λ d e. leb d.created_at e.created_at)
        (map (λ row. row.delivery)
          (select (λ row. is_sent_by tenant db row.delivery && is_about id row.payload)
            db.webhook_deliveries))),
  db,
)
