-- ===== src/Persistence/Accounts.antt =====
-- API keys, users and the settings of a tenant (crates/openpay-persistence/src/store.rs and
-- settings.rs). The time stamp of a key only orders the list; the codec of its identifier is not
-- modelled.
use vega_trix.Base.{
  not, Bool, true, ◌&&◌, String, false, ◌&&◌, Option, none, some, List, [], ◌∷◌, ◌++◌, map, ok, err,
  any, find, if◌then◌else◌, select, leb, ◌==◌, str_eq,
}
use vega_trix.Base.Machine.{Uuid, Instant}
use vega_trix.Base.Sort.{sort_by}
use vega_trix.Application.Ports.{ApiKeyRecord, AuthUser, infra}
use vega_trix.Persistence.Db.{Db, Query}

-- `find_by_fingerprint`
unfoldable pub find_by_fingerprint : String → Query (Option ApiKeyRecord)
find_by_fingerprint fingerprint db =
    elim (find (λ row. str_eq row.key.fingerprint fingerprint) db.api_keys) [
      | some row ↦ (ok (some row.key), db)
      | none ↦ (ok none, db)
    ]

-- `list_for_merchant`
unfoldable pub list_for_merchant : Uuid → Uuid → Query (List ApiKeyRecord)
list_for_merchant tenant merchant db = (
  ok (
      select
        (λ k.
          k.tenant_id == tenant && (elim k.merchant_id [ none ↦ false | some m ↦ m == merchant ]))
        (map (λ row. row.key) db.api_keys)),
  db,
)

-- `list_api_keys`
unfoldable pub list_api_keys : Uuid → Query (List ApiKeyRecord)
unfolding sort_by
list_api_keys tenant db = (
  ok (
      map (λ row. row.key)
        (sort_by (λ r s. leb s.created_at r.created_at)
          (select (λ row. row.key.tenant_id == tenant) db.api_keys))),
  db,
)

-- The tenant of a key and its merchant, if it has one, are there.
abbrev pub key_refers : ApiKeyRecord → Db → Bool
key_refers key db = any (λ t. t == key.tenant_id) db.tenants && elim key.merchant_id [
  | none ↦ true
  | some merchant ↦ any (λ m. m.id == merchant) db.merchants
]

-- `insert`: the fingerprint is unique, and there are two foreign keys.
unfoldable pub insert_key : ApiKeyRecord → Instant → Query (Unit {0})
insert_key key now db =
    if any (λ row. str_eq row.key.fingerprint key.fingerprint) db.api_keys
    then (err (infra "duplicate fingerprint"), db)
    else if not (key_refers key db)
    then (err (infra "foreign key"), db)
    else (
      ok tt,
      record db { api_keys = db.api_keys ++ record { key = key; created_at = now } ∷ [] },
    )

-- `find_by_email`
unfoldable pub find_by_email : String → Query (Option AuthUser)
find_by_email email db = (ok (find (λ u. str_eq u.email email) db.users), db)

-- `get_tenant_settings_json`
unfoldable pub get_tenant_settings_json : Uuid → Query (Option String)
get_tenant_settings_json tenant db =
    elim (find (λ row. row.tenant_id == tenant) db.tenant_settings) [
      | some row ↦ (ok (some row.settings), db)
      | none ↦ (ok none, db)
    ]
