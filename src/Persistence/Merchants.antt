-- ===== src/Persistence/Merchants.antt =====
-- The merchant repository (crates/openpay-persistence/src/store.rs).
use vega_trix.Base.{◌&&◌, none, some, ok, err, find, ◌==◌}
use vega_trix.Base.Machine.{Uuid}
use vega_trix.Application.Ports.{not_found}
use vega_trix.Persistence.Db.{Query, MerchantRow}

-- `get_merchant`
unfoldable pub get_merchant : Uuid → Uuid → Query MerchantRow
get_merchant tenant id db = elim (find (λ m. m.id == id && m.tenant_id == tenant) db.merchants) [
  | some m ↦ (ok m, db)
  | none ↦ (err not_found, db)
]
