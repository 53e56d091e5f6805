-- ===== src/Api/Admin/Operator.antt =====
-- The settings of the operator (crates/openpay-api/src/admin.rs, state.rs and settings.rs of
-- crates/openpay-persistence). Building a JSON document is the crate serde_json's, a parameter.
pub mod Reads
pub mod Patch
pub mod Kept
use vega_trix.Base.{
  ℕ, String, Bool, true, false, not, ◌&&◌, Option, none, some, List, [], map, Result, ok, err,
  ◌>>=◌ as and_then, fail_if, length, ◌==◌, if◌then◌else◌,
}
use vega_trix.Base.Int.{ℤ}
use vega_trix.Base.Machine.{Uuid}
use vega_trix.Base.Text.{codes, to_upper, trim, utf8}
use vega_trix.Application.Exec.{World, query, now}
use vega_trix.Persistence.Accounts.{get_tenant_settings_json}
use vega_trix.Persistence.Settings.{
  OperatorSettings, Json, clamp, clamp_ℤ, overlay_json, upsert_tenant_settings_json,
}
use vega_trix.Persistence.Admin.{load_latest_tenant_settings_json}
use vega_trix.Config.{AppConfig, is_production}
use vega_trix.Api.Error.{ApiError, problem, said}
use vega_trix.Api.Http.{Http, pure, lift, service, ◌>>=◌, ◌>>◌}
use vega_trix.Api.Auth.{AuthContext, require_admin}
use vega_trix.Api.Admin.{refused}

-- `json!` of the values that are stored, `as_object_mut`, and `insert` into an object
pub record Documents (json : Json) : Type 0 where
  pub parse : String → json.Value
  pub print : json.Value → String
  pub is_object : json.Value → Bool
  pub empty : json.Value
  pub insert : String → json.Value → json.Value → json.Value
  pub of_text : List ℕ → json.Value
  pub of_i64 : ℤ → json.Value
  pub of_u64 : ℕ → json.Value
  pub of_bool : Bool → json.Value
  pub of_strings : List (List ℕ) → json.Value

pub record FeaturePatch : Type 0 where
  pub connector_mock : Option Bool
  pub connector_open_banking : Option Bool
  pub telemetry_opt_in : Option Bool

pub record OperatorPatch : Type 0 where
  pub default_currency : Option (List ℕ)
  pub qr_ttl_seconds : Option ℤ
  pub webhook_timeout_ms : Option ℕ
  pub rate_limit_per_minute : Option ℕ
  pub cors_allow_origins : Option (List (List ℕ))
  pub webhook_url_allowlist : Option (List (List ℕ))
  pub features : Option FeaturePatch

-- The currency of a patch, if it has three bytes once trimmed.
unfoldable pub checked_currency : Option (List ℕ) → Result ApiError (Option (List ℕ))
checked_currency none = ok none
checked_currency (some text) =
    if length (utf8 (trim text)) == 3
    then ok (some (map to_upper (trim text)))
    else refused "default_currency must be a 3-letter code"

-- Whether a patch turns the mock connector on.
abbrev enables_mock : Option FeaturePatch → Bool
enables_mock none = false
enables_mock (some f) = elim f.connector_mock [ none ↦ false | some b ↦ b ]

-- `operator_from_config`, at the fields of `AppConfig` that only it reads
pub record OperatorDefaults : Type 0 where
  pub default_currency : List ℕ
  pub qr_ttl_seconds : ℤ
  pub webhook_timeout_ms : ℕ
  pub rate_limit_per_minute : ℕ
  pub cors_allow_origins : List (List ℕ)
  pub telemetry_opt_in : Bool

unfoldable pub operator_from_config : AppConfig → OperatorDefaults → OperatorSettings
operator_from_config config d = record {
  default_currency = d.default_currency;
  qr_ttl_seconds = d.qr_ttl_seconds;
  webhook_timeout_ms = d.webhook_timeout_ms;
  rate_limit_per_minute = d.rate_limit_per_minute;
  cors_allow_origins = d.cors_allow_origins;
  webhook_url_allowlist = map codes config.webhook_url_allowlist;
  feature_connector_mock = config.features.connector_mock;
  feature_connector_open_banking = config.features.connector_open_banking;
  telemetry_opt_in = d.telemetry_opt_in;
}

-- The running process: the world, and the settings that it works with (`AppState`'s field `operator`).
pub record Process : Type 0 where
  pub world : World
  pub operator : OperatorSettings

-- `operator_snapshot` and `replace_operator`; the lock is never poisoned
unfoldable pub operator_snapshot : Process → OperatorSettings
operator_snapshot p = p.operator

unfoldable pub replace_operator : OperatorSettings → Process → Process
replace_operator next p = record p { operator = next }

-- The end of `update_settings`: what was stored is put in force.
abbrev pub put_in_force :
    (json : Json) → Result ApiError (OperatorSettings × json.Value) → Process → Process
put_in_force json (ok (s, v)) p = replace_operator s p
put_in_force json (err e) p = p

module _ (json : Json) (docs : Documents json) where
  -- `insert` of a value, if there is one
  abbrev pub put : {A : Type 0} → String → (A → json.Value) → Option A → json.Value → json.Value
  put key of none value = value
  put key of (some a) value = docs.insert key (of a) value

  -- The object under `features`, or a new one.
  abbrev pub features_of : json.Value → json.Value
  features_of stored = elim (json.get stored "features") [ none ↦ docs.empty | some f ↦ f ]

  -- The flags of a patch; what is no object stays as it is.
  unfoldable pub patched_features : FeaturePatch → json.Value → json.Value
  patched_features patch features =
      if docs.is_object features
      then put "telemetry_opt_in" docs.of_bool patch.telemetry_opt_in (
          put "connector_open_banking" docs.of_bool patch.connector_open_banking
            (put "connector_mock" docs.of_bool patch.connector_mock features))
      else features

  -- The values of a patch, at its checked currency.
  unfoldable pub patched_values : Option (List ℕ) → OperatorPatch → json.Value → json.Value
  patched_values currency patch stored =
      put "webhook_url_allowlist" docs.of_strings patch.webhook_url_allowlist (
        put "cors_allow_origins" docs.of_strings patch.cors_allow_origins (
          put "rate_limit_per_minute" (λ n. docs.of_u64 (clamp 1 10000 n))
            patch.rate_limit_per_minute
            (put "webhook_timeout_ms" (λ n. docs.of_u64 (clamp 500 60000 n))
              patch.webhook_timeout_ms
              (put "qr_ttl_seconds" (λ n. docs.of_i64 (clamp_ℤ 30 3600 n)) patch.qr_ttl_seconds
                (put "default_currency" docs.of_text currency stored)))))

  abbrev pub with_features : Option FeaturePatch → json.Value → json.Value
  with_features none stored = stored
  with_features (some patch) stored =
      docs.insert "features" (patched_features patch (features_of stored)) stored

  -- `apply_operator_patch`
  unfoldable pub apply_operator_patch : json.Value → OperatorPatch → Result ApiError json.Value
  apply_operator_patch stored patch =
      and_then
        (fail_if (not (docs.is_object stored))
          (problem 500 "internal" "Internal error" (said "tenant settings is not an object")))
        λ _.
          and_then (checked_currency patch.default_currency)
            λ currency. ok (with_features patch.features (patched_values currency patch stored))

  -- The document of a tenant, or an empty one.
  abbrev stored_document : Option String → json.Value
  stored_document none = docs.empty
  stored_document (some text) = docs.parse text

  -- The settings that a stored document gives.
  unfoldable pub effective : AppConfig → OperatorDefaults → Option String → OperatorSettings
  effective config d none = operator_from_config config d
  effective config d (some text) =
      overlay_json json (docs.parse text) (operator_from_config config d)

  -- `settings`: the settings in force, and what is stored
  unfoldable pub settings :
      AppConfig → OperatorDefaults → AuthContext → Http (OperatorSettings × Option String)
  settings config d auth = do
    lift (require_admin auth)
    stored ← service (query (get_tenant_settings_json auth.tenant_id))
    pure (effective config d stored, stored)

  -- The settings that `update_settings` stores, and later puts in force.
  unfoldable pub store_patched :
      AppConfig → OperatorDefaults → Uuid → json.Value → Http (OperatorSettings × json.Value)
  store_patched config d tenant patched = do
    t ← service now
    service (query (upsert_tenant_settings_json tenant (docs.print patched) t))
    pure (overlay_json json patched (operator_from_config config d), patched)

  -- `update_settings` up to the store, with the settings that it puts in force.
  unfoldable pub patch_settings :
      AppConfig
      → OperatorDefaults
      → AuthContext
      → OperatorPatch
      → Http (OperatorSettings × json.Value)
  patch_settings config d auth patch = do
    lift (require_admin auth)
    lift (
        fail_if (is_production config && enables_mock patch.features) (
          problem 403 "forbidden" "Forbidden"
            (said "cannot enable the mock connector when APP_ENV=production")))
    stored ← service (query (get_tenant_settings_json auth.tenant_id))
    patched ← lift (apply_operator_patch (stored_document stored) patch)
    store_patched config d auth.tenant_id patched

  -- `update_settings`
  unfoldable pub update_settings :
      AppConfig
      → OperatorDefaults
      → AuthContext
      → OperatorPatch
      → Process
      → Result ApiError (OperatorSettings × json.Value) × Process
  update_settings config d auth patch p =
      let (r, w) = patch_settings config d auth patch p.world in
      (r, put_in_force json r (record p { world = w }))

  -- `load_operator_settings`, at the start of a process: whichever tenant stored last
  unfoldable pub load_operator_settings :
      AppConfig → OperatorDefaults → World → OperatorSettings × World
  load_operator_settings config d w =
      let (r, db') = load_latest_tenant_settings_json w.db in
      (
        elim r [ ok stored ↦ effective config d stored | err _ ↦ operator_from_config config d ],
        record w { db = db' },
      )
