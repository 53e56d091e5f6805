-- ===== src/Persistence/Settings.antt =====
-- The settings that an operator may change (crates/openpay-persistence/src/settings.rs). Reading a JSON
-- document is a parameter: the value under a key, if it has the type that is asked for.
pub mod Overlay
pub mod Stored
use vega_trix.Base.{
  ℕ, ◌*◌, String, Bool, true, false, not, ◌&&◌, ◌||◌, Option, none, some, List, [], ◌∷◌, map,
  length, any, ok, err, select, is_empty, ltb, ◌==◌, leb, find, str_eq, if◌then◌else◌, suc, count,
  ◌++◌,
}
use vega_trix.Base.Int.{ℤ, pos, ltb_ℤ}
use vega_trix.Base.Machine.{Uuid, Instant}
use vega_trix.Base.Text.{to_upper, trim, utf8}
use vega_trix.Domain.Webhook.{WebhookEndpoint, WebhookEndpointStatus}
use vega_trix.Application.Ports.{ApiKeyRecord, not_found}
use vega_trix.Persistence.Db.{Db, Query, SettingsRow, ApiKeyRow}

pub record OperatorSettings : Type 0 where
  pub default_currency : List ℕ
  pub qr_ttl_seconds : ℤ
  pub webhook_timeout_ms : ℕ
  pub rate_limit_per_minute : ℕ
  pub cors_allow_origins : List (List ℕ)
  pub webhook_url_allowlist : List (List ℕ)
  pub feature_connector_mock : Bool
  pub feature_connector_open_banking : Bool
  pub telemetry_opt_in : Bool

-- `get` and `as_str`, `as_i64`, `as_u64`, `as_bool`, and the strings of `as_array`
pub record Json : Type 1 where
  pub Value : Type 0
  pub get : Value → String → Option Value
  pub as_str : Value → Option (List ℕ)
  pub as_i64 : Value → Option ℤ
  pub as_u64 : Value → Option ℕ
  pub as_bool : Value → Option Bool
  pub strings : Value → Option (List (List ℕ))

-- `clamp`
unfoldable pub clamp : ℕ → ℕ → ℕ → ℕ
clamp low high n = if ltb n low then low else if ltb high n then high else n

unfoldable pub clamp_ℤ : ℕ → ℕ → ℤ → ℤ
clamp_ℤ low high n =
    if ltb_ℤ n (pos low) then pos low else if ltb_ℤ (pos high) n then pos high else n

-- `string_list`
unfoldable pub string_list : List (List ℕ) → List (List ℕ)
string_list strings = select (λ s. not (is_empty s)) (map trim strings)

-- The new value of a setting, if there is one.
abbrev pub changed : {A B : Type 0} → Option A → (A → B) → B → B
changed none f old = old
changed (some a) f old = f a

-- The currency, if it has three bytes.
unfoldable pub currency_of : Option (List ℕ) → List ℕ → List ℕ
currency_of none old = old
currency_of (some text) old = if length (utf8 text) == 3 then map to_upper text else old

-- `Option::and_then`
abbrev pub chain : {A B : Type 0} → Option A → (A → Option B) → Option B
chain none f = none
chain (some a) f = f a

module _ (json : Json) where
  -- The flags, under the names that they have in a document.
  unfoldable pub overlay_flags :
      (mock banking telemetry : String) → json.Value → OperatorSettings → OperatorSettings
  overlay_flags mock banking telemetry value s = record s {
    feature_connector_mock =
        changed (chain (json.get value mock) json.as_bool) (λ b. b) s.feature_connector_mock;
    feature_connector_open_banking =
        changed (chain (json.get value banking) json.as_bool) (λ b. b)
          s.feature_connector_open_banking;
    telemetry_opt_in =
        changed (chain (json.get value telemetry) json.as_bool) (λ b. b) s.telemetry_opt_in;
  }

  -- The settings but for the flags.
  unfoldable pub overlay_values : json.Value → OperatorSettings → OperatorSettings
  overlay_values value s = record s {
    default_currency =
        currency_of (chain (json.get value "default_currency") json.as_str) s.default_currency;
    qr_ttl_seconds =
        changed (chain (json.get value "qr_ttl_seconds") json.as_i64) (clamp_ℤ 30 3600)
          s.qr_ttl_seconds;
    webhook_timeout_ms =
        changed (chain (json.get value "webhook_timeout_ms") json.as_u64) (clamp 500 60000)
          s.webhook_timeout_ms;
    rate_limit_per_minute =
        changed (chain (json.get value "rate_limit_per_minute") json.as_u64) (clamp 1 10000)
          s.rate_limit_per_minute;
    cors_allow_origins =
        changed (chain (json.get value "cors_allow_origins") json.strings) string_list
          s.cors_allow_origins;
    webhook_url_allowlist =
        changed (chain (json.get value "webhook_url_allowlist") json.strings) string_list
          s.webhook_url_allowlist;
  }

  -- `overlay_json`
  unfoldable pub overlay_json : json.Value → OperatorSettings → OperatorSettings
  overlay_json value s = elim (json.get value "features") [
    | some features ↦
        overlay_flags "connector_mock" "connector_open_banking" "telemetry_opt_in" features
          (overlay_values value s)
    | none ↦
        overlay_flags "feature_connector_mock" "feature_connector_open_banking" "telemetry_opt_in"
          value (overlay_values value s)
  ]

-- `upsert_tenant_settings_json`
unfoldable pub upsert_tenant_settings_json : Uuid → String → Instant → Query (Unit {0})
upsert_tenant_settings_json tenant json now db = (
  ok tt,
  record db {
    tenant_settings =
        if any (λ row. row.tenant_id == tenant) db.tenant_settings
        then map
            (λ row.
              if row.tenant_id == tenant
              then record row { settings = json; updated_at = now }
              else row)
            db.tenant_settings
        else db.tenant_settings
          ++ record { tenant_id = tenant; settings = json; updated_at = now } ∷ [];
  },
)

-- The row that `revoke_api_key` updates.
abbrev pub is_live : Uuid → String → ApiKeyRow → Bool
is_live tenant id row = str_eq row.key.id id && row.key.tenant_id == tenant && not row.key.revoked

-- `revoke_api_key`: whether a row was updated
unfoldable pub revoke_api_key : Uuid → String → Query Bool
revoke_api_key tenant id db = (
  ok (any (is_live tenant id) db.api_keys),
  record db {
    api_keys =
        map
          (λ row.
            if is_live tenant id row
            then record row { key = record row.key { revoked = true } }
            else row)
          db.api_keys;
  },
)

-- `insert_webhook_endpoint`: the count of failures starts at 0
unfoldable pub insert_webhook_endpoint : WebhookEndpoint → Query (Unit {0})
insert_webhook_endpoint e db = (
  ok tt,
  record db { webhook_endpoints = db.webhook_endpoints ++ record e { failure_count = 0 } ∷ [] },
)
