-- ===== src/Connectors/Ledger.antt =====
-- The attempt ledger that the sandbox connectors share: one row to a connector key and provider
-- reference, overwritten by a later `put` (crates/openpay-connectors/src/sandbox.rs,
-- crates/openpay-persistence/src/sandbox.rs).
use vega_trix.Base.{
  ◌≡◌, Bool, ◌&&◌, String, Option, some, none, List, [], ◌∷◌, ok, str_eq, eq_iff, arith,
  if◌then◌else◌,
}
use vega_trix.Domain.Status.{AttemptStatus}
use vega_trix.Persistence.Db.{SandboxRow}
use vega_trix.Connectors.Api.{Call}

abbrev pub is_row : String → String → SandboxRow → Bool
is_row key reference row = str_eq row.connector_key key && str_eq row.provider_reference reference

-- `ON CONFLICT ... DO UPDATE`
unfoldable pub upsert : String → String → AttemptStatus → List SandboxRow → List SandboxRow
upsert key reference status [] =
    record { connector_key = key; provider_reference = reference; status = status } ∷ []
upsert key reference status (row ∷ rows) =
    let rest = upsert key reference status rows in
    if is_row key reference row then record row { status = status } ∷ rows else row ∷ rest

unfoldable pub status_of : String → String → List SandboxRow → Option AttemptStatus
status_of key reference [] = none
status_of key reference (row ∷ rows) =
    let rest = status_of key reference rows in
    if is_row key reference row then some row.status else rest

-- `SandboxAttemptStore::put`
unfoldable pub put : String → String → AttemptStatus → Call (Unit {0})
unfolding upsert
put key reference status s = (ok tt, record s { rows = upsert key reference status s.rows })

-- `SandboxAttemptStore::get`
unfoldable pub get : String → String → Call (Option AttemptStatus)
unfolding status_of
get key reference s = (ok (status_of key reference s.rows), s)

-- A `get` after a `put` answers the status that was put at that key and reference, and at any other
-- pair what it answered before.
pub get-put :
    (k k' r r' : String) (status : AttemptStatus) (rows : List SandboxRow)
    → status_of k' r' (upsert k r status rows)
      ≡ (if str_eq k k' && str_eq r r' then some status else status_of k' r' rows)
unfolding status_of upsert
get-put k k' r r' status [] = ground arith
get-put k k' r r' status (row ∷ rows) = ground (
  arith,
  get-put k k' r r' status rows,
  eq_iff k k',
  eq_iff r r',
  eq_iff row.connector_key k,
  eq_iff row.connector_key k',
  eq_iff row.provider_reference r,
  eq_iff row.provider_reference r',
)
