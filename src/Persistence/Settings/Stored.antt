-- ===== src/Persistence/Settings/Stored.antt =====
-- Settings that were stored are read back (crates/openpay-persistence/src/settings.rs).
use mathlib.Core.Option
use vega_trix.Base.{
  ◌≡◌, refl, ap, ◌∙◌, String, Bool, true, false, none, some, List, [], ◌∷◌, ok, arith, any, find,
  find-map, find-some, find-append_one, Option-cases, Bool-cases, inl, inr, ◌==◌, if◌then◌else◌,
}
use vega_trix.Base.Machine.{Uuid, Instant}
use vega_trix.Persistence.Db.{Db, SettingsRow}
use vega_trix.Persistence.Accounts.{get_tenant_settings_json}
use vega_trix.Persistence.Settings.{upsert_tenant_settings_json}

abbrev is_of : Uuid → SettingsRow → Bool
is_of tenant row = row.tenant_id == tenant

any-find :
    (p : SettingsRow → Bool) (rows : List SettingsRow) → find p rows ≡ none → any p rows ≡ false
any-find p [] h = refl
any-find p (row ∷ rows) h = ground (arith, any-find p rows)

find-any :
    (p : SettingsRow → Bool) (rows : List SettingsRow) {row : SettingsRow}
    → find p rows ≡ some row
    → any p rows ≡ true
find-any p [] h = absurd (cc h)
find-any p (r ∷ rows) h = elim (Bool-cases (p r)) [
  | inl e ↦ rw e refl
  | inr e ↦ rw e (find-any p rows (rw e at h))
]

get_found :
    (tenant : Uuid) (db : Db) (row : SettingsRow)
    → find (is_of tenant) db.tenant_settings ≡ some row
    → get_tenant_settings_json tenant db ≡ (ok (some row.settings), db)
unfolding get_tenant_settings_json
get_found tenant db row e = rw (e, get_tenant_settings_json) refl

-- A tenant's settings are what was stored last.
pub get-upsert :
    (tenant : Uuid) (json : String) (t : Instant) (db : Db)
    → get_tenant_settings_json tenant (upsert_tenant_settings_json tenant json t db).1
      ≡ (ok (some json), (upsert_tenant_settings_json tenant json t db).1)
unfolding upsert_tenant_settings_json
get-upsert tenant json t db =
    let new : SettingsRow = record { tenant_id = tenant; settings = json; updated_at = t } in
    let write = λ (row : SettingsRow).
      if row.tenant_id == tenant then record row { settings = json; updated_at = t } else row in
    elim (Option-cases (find (is_of tenant) db.tenant_settings)) [
      | inl e ↦
          let gone = any-find (is_of tenant) db.tenant_settings e in
          rw gone (
            get_found tenant _ new
              (find-append_one (is_of tenant) db.tenant_settings new gone (ground arith)))
      | inr (row, e) ↦
          let own = find-some (is_of tenant) db.tenant_settings e in
          let written : some (write row) ≡ some (record row { settings = json; updated_at = t }) =
            rw own refl in
          rw (find-any (is_of tenant) db.tenant_settings e) (
            get_found tenant _ (record row { settings = json; updated_at = t })
              (find-map (is_of tenant) write db.tenant_settings (λ r. ground arith)
                ∙ ap (Option.map write) e
                ∙ written))
    ]
