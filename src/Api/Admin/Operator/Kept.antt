-- ===== src/Api/Admin/Operator/Kept.antt =====
-- Settings that an administrator stores are in force (crates/openpay-api/src/admin.rs).
use vega_trix.Base.{
  suc, ◌≡◌, refl, sym, ap, ◌∙◌, ◌&&◌, String, Result, some, ok, ok-injective, fail_if,
}
use vega_trix.Base.Machine.{Uuid, Instant}
use vega_trix.Persistence.Db.{Db}
use vega_trix.Application.Exec.{World, query}
use vega_trix.Persistence.Accounts.{get_tenant_settings_json}
use vega_trix.Persistence.Settings.{
  OperatorSettings, Json, overlay_json, upsert_tenant_settings_json,
}
use vega_trix.Persistence.Settings.Stored.{get-upsert}
use vega_trix.Config.{AppConfig, is_production}
use vega_trix.Api.Error.{ApiError}
use vega_trix.Api.Http.{bind-ok, lift-ok, service}
use vega_trix.Api.Auth.{AuthContext, require_admin}
use vega_trix.Api.Admin.Operator.{
  Documents, OperatorDefaults, OperatorPatch, apply_operator_patch, effective, store_patched,
  settings, patch_settings, update_settings, Process, put_in_force, replace_operator,
  operator_snapshot, enables_mock, stored_document, operator_from_config,
}

module _ (json : Json) (docs : Documents json) (config : AppConfig) (d : OperatorDefaults) where
  -- The settings in force without a document.
  abbrev base : OperatorSettings
  base = operator_from_config config d

  upsert_succeeds :
      (tenant : Uuid) (text : String) (t : Instant) (db : Db)
      → (upsert_tenant_settings_json tenant text t db).0 ≡ ok tt
  unfolding upsert_tenant_settings_json
  upsert_succeeds tenant text t db = refl

  -- The world after the settings were stored.
  abbrev stored_in : Uuid → json.Value → World → World
  stored_in tenant patched w = record w {
    db = (upsert_tenant_settings_json tenant (docs.print patched) (w.clock w.read) w.db).1;
    read = suc w.read;
  }

  settings-stored :
      (auth : AuthContext) (patched : json.Value) (w : World)
      → require_admin auth ≡ ok tt
      → settings json docs config d auth (stored_in auth.tenant_id patched w) ≡ (
        ok (overlay_json json (docs.parse (docs.print patched)) base, some (docs.print patched)),
        stored_in auth.tenant_id patched w,
      )
  unfolding settings effective
  settings-stored auth patched w admitted =
      rw (admitted, get-upsert auth.tenant_id (docs.print patched) (w.clock w.read) w.db) refl

  store_patched-settings :
      (auth : AuthContext) (patched v : json.Value) (s : OperatorSettings) (w w' : World)
      → require_admin auth ≡ ok tt
      → store_patched json docs config d auth.tenant_id patched w ≡ (ok (s, v), w')
      → docs.parse (docs.print v) ≡ v
      → settings json docs config d auth w' ≡ (ok (s, some (docs.print v)), w')
  unfolding store_patched
  store_patched-settings auth patched v s w w' admitted h reads =
      let answer : ◌≡◌ {A = Result ApiError (OperatorSettings × json.Value) × World}
          (ok (overlay_json json patched base, patched), stored_in auth.tenant_id patched w)
          (ok (s, v), w') =
        rw (upsert_succeeds auth.tenant_id (docs.print patched) (w.clock w.read) w.db) at h in
      let both = ok-injective (ap (λ r. r.0) answer) in
      let same : patched ≡ v = ap (λ r. r.1) both in
      let world = ap (λ r. r.1) answer in
      let read_back : docs.parse (docs.print patched) ≡ patched =
        ap (λ x. docs.parse (docs.print x)) same ∙ reads ∙ sym same in
      let force = ap (λ x. overlay_json json x base) read_back ∙ ap (λ r. r.0) both in
      ap (settings json docs config d auth) (sym world)
      ∙ settings-stored auth patched w admitted
      ∙ (λ i. (ok (force i, some (docs.print (same i))), world i))

  patch_settings-settings :
      (auth : AuthContext) (patch : OperatorPatch) (w w' : World) (s : OperatorSettings)
      (v : json.Value)
      → patch_settings json docs config d auth patch w ≡ (ok (s, v), w')
      → docs.parse (docs.print v) ≡ v
      → settings json docs config d auth w' ≡ (ok (s, some (docs.print v)), w')
  unfolding patch_settings
  patch_settings-settings auth patch w w' s v h reads =
      let (_, admitted, h1) = lift-ok (require_admin auth) _ w h in
      let (_, _, h2) =
        lift-ok (fail_if (is_production config && enables_mock patch.features) _) _ w h1 in
      let (stored, w3, _, h3) =
        bind-ok (service (query (get_tenant_settings_json auth.tenant_id))) _ w h2 in
      let (patched, _, h4) =
        lift-ok (apply_operator_patch json docs (stored_document json docs stored) patch) _ w3 h3 in
      store_patched-settings auth patched v s w3 w' admitted h4 reads

  -- The settings that an administrator stores are the ones that are shown afterwards, and the process goes
  -- on with just those. A stored document must read back as it was.
  pub update_settings-settings :
      (auth : AuthContext) (patch : OperatorPatch) (p p' : Process) (s : OperatorSettings)
      (v : json.Value)
      → update_settings json docs config d auth patch p ≡ (ok (s, v), p')
      → docs.parse (docs.print v) ≡ v
      → (settings json docs config d auth p'.world ≡ (ok (s, some (docs.print v)), p'.world))
        × (operator_snapshot p' ≡ s)
  unfolding update_settings replace_operator operator_snapshot
  update_settings-settings auth patch p p' s v h reads =
      let run = patch_settings json docs config d auth patch p.world in
      let answer : run.0 ≡ ok (s, v) = ap (λ r. r.0) h in
      let ended : put_in_force json run.0 (record p { world = run.1 }) ≡ p' = ap (λ r. r.1) h in
      let final : ◌≡◌ {A = Process} (record p { world = run.1; operator = s }) p' =
        rw answer at ended in
      let world : run.1 ≡ p'.world = ap (λ q. q.world) final in
      (
        patch_settings-settings auth patch p.world p'.world s v (λ i. (answer i, world i)) reads,
        ap (λ q. q.operator) (sym final),
      )
