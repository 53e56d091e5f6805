-- ===== src/Config.antt =====
-- The checks of the configuration (crates/openpay-config/src/lib.rs). Reading the environment is left
-- out; a value is the text that was read. Reading a URL is the crate url's, a parameter.
pub mod Parts
pub mod Production
use vega_trix.Base.{
  ℕ, String, Bool, true, false, not, ◌&&◌, ◌||◌, Option, none, some, List, [], ◌∷◌, map, Result, ok,
  err, ◌>>=◌, ◌>>◌, map_err, fail_if, length, is_empty, ltb, str_eq, if◌then◌else◌,
}
use vega_trix.Base.Text.{codes, to_lower, trim, as_bytes, eq_ignore_ascii_case}
use vega_trix.Crypto.Envelope.{Cipher, starts_with, decode_master_key}

pub data Edition : Type 0 where
  community cloud enterprise : Edition

pub record FeatureFlags : Type 0 where
  pub connector_mock : Bool
  pub connector_open_banking : Bool
  pub advanced_routing : Bool
  pub analytics : Bool
  pub sso : Bool

pub record EditionCapabilities : Type 0 where
  pub advanced_routing : Bool
  pub analytics : Bool
  pub sso : Bool
  pub connector_open_banking : Bool
  pub white_label : Bool

-- The fields of `AppConfig` that the checks read.
pub record AppConfig : Type 0 where
  pub environment : String
  pub edition : Edition
  pub app_base_url : String
  pub api_base_url : String
  pub dashboard_base_url : String
  pub wallet_base_url : String
  pub database_url : String
  pub jwt_access_secret : String
  pub jwt_refresh_secret : String
  pub encryption_master_key : String
  pub webhook_signing_secret : String
  pub qr_signing_secret : String
  pub webhook_url_allowlist : List String
  pub features : FeatureFlags

-- `ConfigError`; the text of `Load` by what it is about.
pub data ConfigError : Type 0 where
  load missing_secret url : String → ConfigError

-- `EditionCapabilities::for_edition`
unfoldable pub for_edition : Edition → FeatureFlags → EditionCapabilities
for_edition community flags = record {
  advanced_routing = false;
  analytics = false;
  sso = false;
  connector_open_banking = flags.connector_open_banking;
  white_label = false;
}
for_edition cloud flags = record {
  advanced_routing = flags.advanced_routing;
  analytics = flags.analytics;
  sso = flags.sso;
  connector_open_banking = flags.connector_open_banking;
  white_label = false;
}
for_edition enterprise flags = record {
  advanced_routing = true;
  analytics = true;
  sso = true;
  connector_open_banking = flags.connector_open_banking;
  white_label = false;
}

-- `str::contains`
unfoldable pub contains : List ℕ → List ℕ → Bool
unfolding starts_with
contains [] part = is_empty part
contains (c ∷ s) part = starts_with (c ∷ s) part || contains s part

-- `looks_like_placeholder`
unfoldable pub looks_like_placeholder : String → Bool
unfolding contains
looks_like_placeholder value =
    is_empty (trim (codes value))
    || contains (map to_lower (trim (codes value))) (codes "replace_me")

-- `is_production`
unfoldable pub is_production : AppConfig → Bool
unfolding eq_ignore_ascii_case
is_production config = eq_ignore_ascii_case config.environment "production"

-- A secret is shorter than so many bytes.
abbrev pub is_short : ℕ → String → Bool
is_short n value = ltb (length (as_bytes value)) n

unfoldable pub check_length : String → ℕ → String → Result ConfigError (Unit {0})
check_length name n value = fail_if (is_short n value) (missing_secret name)

-- One round of the loop of `validate_production`.
unfoldable pub check_secret : String → ℕ → String → Result ConfigError (Unit {0})
check_secret name n value =
    fail_if (looks_like_placeholder value || is_short n value) (missing_secret name)

-- `assert_seed_allowed`
unfoldable pub assert_seed_allowed : AppConfig → Result ConfigError (Unit {0})
assert_seed_allowed config = fail_if (is_production config) (load "demo seed")

module _ (cipher : Cipher) (parse_scheme : String → Result String String) where
  -- `require_https`
  unfoldable pub require_https : String → String → Result ConfigError (Unit {0})
  require_https address name = do
    scheme ← map_err url (parse_scheme address)
    fail_if (not (str_eq scheme "https")) (load name)

  -- `validate_production`
  unfoldable pub validate_production : AppConfig → Result ConfigError (Unit {0})
  validate_production config = do
    check_secret "JWT_ACCESS_SECRET" 32 config.jwt_access_secret
    check_secret "JWT_REFRESH_SECRET" 32 config.jwt_refresh_secret
    check_secret "QR_SIGNING_SECRET" 16 config.qr_signing_secret
    check_secret "WEBHOOK_SIGNING_SECRET" 16 config.webhook_signing_secret
    check_secret "ENCRYPTION_MASTER_KEY" 32 config.encryption_master_key
    map_err (λ e. missing_secret "ENCRYPTION_MASTER_KEY")
        (decode_master_key cipher (codes config.encryption_master_key))
    fail_if config.features.connector_mock (load "FEATURE_CONNECTOR_MOCK")
    fail_if (is_empty config.webhook_url_allowlist) (load "WEBHOOK_URL_ALLOWLIST")
    require_https config.api_base_url "API_BASE_URL"
    require_https config.app_base_url "APP_BASE_URL"
    require_https config.dashboard_base_url "DASHBOARD_BASE_URL"
    require_https config.wallet_base_url "WALLET_BASE_URL"

  -- `validate`
  unfoldable pub validate : AppConfig → Result ConfigError (Unit {0})
  validate config = do
    map_err url (parse_scheme config.api_base_url)
    check_length "JWT_ACCESS_SECRET" 32 config.jwt_access_secret
    check_length "JWT_REFRESH_SECRET" 32 config.jwt_refresh_secret
    check_length "QR_SIGNING_SECRET" 16 config.qr_signing_secret
    check_length "WEBHOOK_SIGNING_SECRET" 16 config.webhook_signing_secret
    fail_if (starts_with (codes config.database_url) (codes "sqlite") && is_production config)
        (load "SQLite")
    if is_production config then validate_production config else ok tt
