-- ===== src/Api/Admin/Keys/Revocation.antt =====
-- A key that is revoked (crates/openpay-api/src/admin.rs and auth.rs).
use vega_trix.Base.{
  ℕ, ◌≡◌, ◌≢◌, sym, ap, ◌∙◌, inl, inr, String, true, some, List, ok, err, arith, find, eq_iff,
  Option-cases, Result-cases, find-map, if◌then◌else◌,
}
use mathlib.Core.Option
use vega_trix.Base.Machine.{Uuid}
use vega_trix.Application.Ports.{ApiKeyRecord}
use vega_trix.Application.Exec.{World}
use vega_trix.Persistence.Db.{Db, ApiKeyRow}
use vega_trix.Persistence.Accounts.{find_by_fingerprint}
use vega_trix.Persistence.Settings as Settings
use vega_trix.Persistence.Settings.{is_live}
use vega_trix.Api.Error.{unauthorized}
use vega_trix.Api.Auth.{AuthContext, require_admin, admit_key, authenticate_api_key}
use vega_trix.Api.Auth.Sessions.{known_key}
use vega_trix.Api.Admin.{AdminEnv}
use vega_trix.Api.Admin.Keys.{parse_api_key_uuid, revoke_api_key}
use vega_trix.Api.Admin.Keys.Cycle.{has_print, find_by_fingerprint_found}

-- The update of one row by `revoke_api_key`.
abbrev revoke : Uuid → String → ApiKeyRow → ApiKeyRow
revoke tenant id row =
    if is_live tenant id row then record row { key = record row.key { revoked = true } } else row

found_row :
    (print : String) (db : Db) (key : ApiKeyRecord)
    → find_by_fingerprint print db ≡ (ok (some key), db)
    → (row : ApiKeyRow) × (find (has_print print) db.api_keys ≡ some row) × (row.key ≡ key)
unfolding find_by_fingerprint
found_row print db key h = elim (Option-cases (find (has_print print) db.api_keys)) [
  | inl e ↦ absurd (cc (rw (e, find_by_fingerprint) at h))
  | inr (row, e) ↦ (row, e, cc (rw (e, find_by_fingerprint) at h))
]

-- After a revocation a fingerprint finds the row it found before, changed by the update.
find-revoke_api_key :
    (tenant : Uuid) (id print : String) (db : Db) (row : ApiKeyRow)
    → find (has_print print) db.api_keys ≡ some row
    → find_by_fingerprint print (Settings.revoke_api_key tenant id db).1
      ≡ (ok (some (revoke tenant id row).key), (Settings.revoke_api_key tenant id db).1)
unfolding Settings.revoke_api_key
find-revoke_api_key tenant id print db row e =
    find_by_fingerprint_found print _ (revoke tenant id row) (
      find-map (has_print print) (revoke tenant id) db.api_keys (λ r. ground arith)
      ∙ ap (Option.map (revoke tenant id)) e)

module _ (env : AdminEnv) where
  revoke_api_key_world :
      (auth : AuthContext) (key_id : List ℕ) (id : Uuid) (w w' : World)
      → revoke_api_key env auth key_id w ≡ (ok tt, w')
      → parse_api_key_uuid env key_id ≡ ok id
      → w' ≡ record w { db = (Settings.revoke_api_key auth.tenant_id (env.print_uuid id) w.db).1 }
  unfolding revoke_api_key Settings.revoke_api_key
  revoke_api_key_world auth key_id id w w' h parsed = elim (Result-cases (require_admin auth)) [
    | inl (_, e) ↦ sym (ap (λ r. r.1) (rw (e, parsed) at h))
    | inr (_, e) ↦ absurd (cc (rw e at h))
  ]

  -- What a caller with a key gets after the revocation.
  authenticate-revoked :
      (tenant : Uuid) (id : String) (token : List ℕ) (row : ApiKeyRow) (w : World)
      → find (has_print (env.auth.sha256_hex token)) w.db.api_keys ≡ some row
      → authenticate_api_key env.auth token
          (record w { db = (Settings.revoke_api_key tenant id w.db).1 })
        ≡ (
          admit_key env.auth token (revoke tenant id row).key,
          record w { db = (Settings.revoke_api_key tenant id w.db).1 },
        )
  authenticate-revoked tenant id token row w e =
      known_key env.auth token _ (revoke tenant id row).key
        (find-revoke_api_key tenant id (env.auth.sha256_hex token) w.db row e)

  admit_key-revoke :
      (tenant : Uuid) (id : String) (token : List ℕ) (row : ApiKeyRow)
      → ((row.key.id ≡ id)
          → (row.key.tenant_id ≡ tenant)
          → admit_key env.auth token (revoke tenant id row).key ≡ err (unauthorized "revoked key"))
        × ((row.key.tenant_id ≢ tenant) → revoke tenant id row ≡ row)
  unfolding admit_key
  admit_key-revoke tenant id token row =
      (λ same own. ground (arith, eq_iff row.key.id id), λ other. ground arith)

  -- A key that was revoked authenticates no one any more; the keys of other tenants answer as before.
  pub revoke_api_key-authenticate :
      (auth : AuthContext) (key_id token : List ℕ) (id : Uuid) (key : ApiKeyRecord) (w w' : World)
      → revoke_api_key env auth key_id w ≡ (ok tt, w')
      → parse_api_key_uuid env key_id ≡ ok id
      → find_by_fingerprint (env.auth.sha256_hex token) w.db ≡ (ok (some key), w.db)
      → ((key.id ≡ env.print_uuid id)
          → (key.tenant_id ≡ auth.tenant_id)
          → authenticate_api_key env.auth token w' ≡ (err (unauthorized "revoked key"), w'))
        × ((key.tenant_id ≢ auth.tenant_id)
            → (authenticate_api_key env.auth token w').0
              ≡ (authenticate_api_key env.auth token w).0)
  unfolding revoke_api_key
  revoke_api_key-authenticate auth key_id token id key w w' h parsed found =
      let v : World = record w {
        db = (Settings.revoke_api_key auth.tenant_id (env.print_uuid id) w.db).1;
      } in
      let (row, e, same) = found_row _ w.db key found in
      let used = authenticate-revoked auth.tenant_id (env.print_uuid id) token row w e in
      let (own, other) = admit_key-revoke auth.tenant_id (env.print_uuid id) token row in
      rw (revoke_api_key_world auth key_id id w w' h parsed) (
        λ named mine.
            used
            ∙ ap (λ r. (r, v))
                (own (ap (λ k. k.id) same ∙ named) (ap (λ k. k.tenant_id) same ∙ mine)),
        λ foreign.
            ap (λ r. r.0) used
            ∙ ap (λ r. admit_key env.auth token r.key)
                (other (λ q. foreign (sym (ap (λ k. k.tenant_id) same) ∙ q)))
            ∙ ap (admit_key env.auth token) same
            ∙ sym (ap (λ r. r.0) (known_key env.auth token w key found)),
      )
