-- ===== src/Persistence/Catalog.antt =====
-- The connector catalogue and the routing policies (crates/openpay-persistence/src/store.rs).
use vega_trix.Base.{
  String, Bool, true, false, ◌&&◌, ◌||◌, Option, none, some, List, map, ok, err, find, select,
  first_of, ltb, ◌==◌, str_eq, leb,
}
use vega_trix.Base.Machine.{Uuid}
use vega_trix.Base.Sort.{sort_by}
use vega_trix.Domain.Routing.{RoutingPolicy, RoutingPolicyStatus, active, disabled}
use vega_trix.Application.Ports.{ConnectorSnapshot, not_found}
use vega_trix.Persistence.Db.{Query, ConnectorRow}

-- `tenant_id IS NULL OR tenant_id = $1`
abbrev pub is_visible : Uuid → ConnectorRow → Bool
is_visible tenant row = elim row.tenant_id [ none ↦ true | some t ↦ t == tenant ]

-- `list_enabled`
unfoldable pub list_enabled : Uuid → Query (List ConnectorSnapshot)
list_enabled tenant db = (
  ok (
      map (λ row. row.snapshot)
        (select (λ row. row.snapshot.enabled && is_visible tenant row) db.connectors)),
  db,
)

-- `connector_id_by_key`
unfoldable pub connector_id_by_key : Uuid → String → Query Uuid
connector_id_by_key tenant key db =
    elim (find (λ row. str_eq row.snapshot.key key && is_visible tenant row) db.connectors) [
      | some row ↦ (ok row.id, db)
      | none ↦ (err not_found, db)
    ]

abbrev is_active : RoutingPolicyStatus → Bool
is_active active = true
is_active disabled = false

-- `ORDER BY updated_at DESC, created_at DESC`
abbrev newer : RoutingPolicy → RoutingPolicy → Bool
newer p q =
    ltb q.updated_at p.updated_at || (p.updated_at == q.updated_at && leb q.created_at p.created_at)

-- `get_active_policy`
unfoldable pub get_active_policy : Uuid → Query (Option RoutingPolicy)
unfolding sort_by
get_active_policy tenant db = (
  ok (
      first_of
        (sort_by newer (select (λ p. p.tenant_id == tenant && is_active p.status) db.policies))),
  db,
)
