-- ===== src/Tests/Limits.antt =====
-- Configuration, settings, the payment page and the limits on concrete inputs.
use vega_trix.Base.{ℕ, ◌≡◌, refl, String, true, false, none, some, [], ◌∷◌, ok, arith}
use vega_trix.Base.Int.{pos}
use vega_trix.Base.Text.{codes, utf8, trim, is_whitespace}
use vega_trix.Crypto.Envelope.{Cipher, starts_with, decode_master_key}
use vega_trix.Config.{
  AppConfig, community, is_production, validate, check_length, validate_production, check_secret,
  looks_like_placeholder, require_https,
}
use vega_trix.Config.Production.{IsReady, validate_guard}
use vega_trix.Persistence.Settings.{OperatorSettings, Json, overlay_json}
use vega_trix.Persistence.Settings.Overlay.{IsBounded, overlay_json-IsBounded}

-- A document is one number, which every key that asks for a number finds.
abbrev numbers : Json
numbers = record {
  Value = ℕ;
  get = λ value key. some value;
  as_str = λ value. none;
  as_i64 = λ value. some (pos value);
  as_u64 = λ value. some value;
  as_bool = λ value. none;
  strings = λ value. none;
}

abbrev pub defaults : OperatorSettings
defaults = record {
  default_currency = codes "EUR";
  qr_ttl_seconds = pos 300;
  webhook_timeout_ms = 5000;
  rate_limit_per_minute = 120;
  cors_allow_origins = [];
  webhook_url_allowlist = [];
  feature_connector_mock = true;
  feature_connector_open_banking = false;
  telemetry_opt_in = false;
}

defaults-IsBounded : IsBounded defaults
defaults-IsBounded = record {
  ttl = (300, refl, (omega arith, omega arith));
  timeout = (omega arith, omega arith);
  rate = (omega arith, omega arith);
  origins = refl;
  hosts = refl;
}

overlay_json-IsBounded_example : IsBounded (overlay_json numbers 99999 defaults)
overlay_json-IsBounded_example = overlay_json-IsBounded numbers 99999 defaults defaults-IsBounded

abbrev long_secret : String
long_secret = "0123456789abcdef0123456789abcdef"

abbrev pub live : AppConfig
live = record {
  environment = "Production";
  edition = community;
  app_base_url = "https://a";
  api_base_url = "https://b";
  dashboard_base_url = "https://c";
  wallet_base_url = "https://d";
  database_url = "postgresql://db";
  jwt_access_secret = long_secret;
  jwt_refresh_secret = long_secret;
  encryption_master_key = long_secret;
  webhook_signing_secret = long_secret;
  qr_signing_secret = long_secret;
  webhook_url_allowlist = "shop.example" ∷ [];
  features = record {
    connector_mock = false;
    connector_open_banking = false;
    advanced_routing = false;
    analytics = false;
    sso = false;
  };
}

abbrev plain : Cipher
plain = record {
  base64_encode = λ s. s;
  base64_decode = λ s. none;
  accepts = λ key. true;
  seal = λ key nonce text. none;
  unseal = λ key nonce sealed. none;
  is_utf8 = λ s. true;
}

pub live-is_production : is_production live ≡ true
unfolding is_production
live-is_production = refl

live_is_valid : validate plain (λ address. ok "https") live ≡ ok tt
unfolding validate check_length utf8 starts_with is_production validate_production check_secret
    looks_like_placeholder trim is_whitespace decode_master_key require_https
live_is_valid = refl

validate_guard_example :
    IsReady plain (λ address. ok "https") live
    × (starts_with (codes "postgresql://db") (codes "sqlite") ≡ false)
validate_guard_example =
    validate_guard plain (λ address. ok "https") live live-is_production live_is_valid
