-- ===== src/Config/Production.antt =====
-- What a configuration for production has passed (crates/openpay-config/src/lib.rs).
use vega_trix.Base.{
  ℕ, ◌≤◌, ◌≡◌, ◌≢◌, [], ◌∷◌, map, String, Bool, true, false, not, ◌&&◌, some, List, Result, ok, err,
  map_err, bind-ok, fail_if, fail_if-ok, arith, length, is_empty, str_eq, eq_iff, Option-cases,
  Result-cases, inl, inr, if◌then◌else◌,
}
use vega_trix.Base.Text.{codes, as_bytes, to_lower, trim, utf8}
use vega_trix.Crypto.Envelope.{Cipher, starts_with, decoded_key, decode_master_key, key_len}
use vega_trix.Config.Parts.{Has, contains-none}
use vega_trix.Config.{
  AppConfig, url, load, looks_like_placeholder, is_production, check_length, check_secret,
  require_https, validate_production, validate,
}

-- A secret that is not blank, has no `replace_me` in it, whatever its case, and has so many bytes at
-- least.
abbrev pub IsStrong : ℕ → String → Type 0
IsStrong n value =
    (trim (codes value) ≢ [])
    × (¬ Has (codes "replace_me") (map to_lower (trim (codes value))))
    × (n ≤ length (as_bytes value))

not_empty : (s : List ℕ) → is_empty s ≡ false → s ≢ []
not_empty [] h = cc
not_empty (c ∷ s) h = λ e. cc e

check_secret-ok :
    (name : String) (n : ℕ) (value : String) → check_secret name n value ≡ ok tt → IsStrong n value
unfolding check_secret looks_like_placeholder
check_secret-ok name n value h = (
  not_empty (trim (codes value)) (ground arith),
  contains-none b'r' (codes "eplace_me") (map to_lower (trim (codes value))) (ground arith),
  ground arith,
)

map_err-ok : {E F A : Type 0} (f : E → F) (r : Result E A) {a : A} → map_err f r ≡ ok a → r ≡ ok a
map_err-ok f (ok b) h = cc
map_err-ok f (err e) h = cc

branch :
    {E : Type 0} (b : Bool) (k : Result E (Unit {0}))
    → b ≡ true
    → (if b then k else ok tt) ≡ ok tt
    → k ≡ ok tt
branch b k e h = ground arith

first_false : (a b : Bool) → b ≡ true → (a && b) ≡ false → a ≡ false
first_false a b e h = ground arith

module _ (cipher : Cipher) (parse_scheme : String → Result String String) where
  is_https :
      (scheme name : String) {u : Unit {0}}
      → fail_if (not (str_eq scheme "https")) (load name) ≡ ok u
      → scheme ≡ "https"
  is_https scheme name h = ground (arith, eq_iff scheme "https")

  require_https-ok :
      (address name : String)
      → require_https cipher parse_scheme address name ≡ ok tt
      → parse_scheme address ≡ ok "https"
  unfolding require_https
  require_https-ok address name h = elim (Result-cases (parse_scheme address)) [
    | inl (scheme, e) ↦ rw (← is_https scheme name (rw e at h)) e
    | inr (why, e) ↦ ground arith
  ]

  decoded_key-length :
      (raw : List ℕ) {key : List ℕ} → decoded_key cipher raw ≡ some key → length key ≡ key_len
  unfolding decoded_key
  decoded_key-length raw h = ground arith

  decode_master_key-length :
      (text : List ℕ) {key : List ℕ} → decode_master_key cipher text ≡ ok key → length key ≡ key_len
  unfolding decode_master_key
  decode_master_key-length text h = elim (Option-cases (decoded_key cipher (utf8 (trim text)))) [
    | inl e ↦ ground arith
    | inr (k, e) ↦ ground (arith, decoded_key-length (utf8 (trim text)) {key = k} e)
  ]

  -- The key that the envelope encryption takes from the text.
  abbrev pub HasKey : String → Type 0
  HasKey text =
      (key : List ℕ) × (decode_master_key cipher (codes text) ≡ ok key) × (length key ≡ key_len)

  abbrev pub IsHttps : String → Type 0
  IsHttps address = parse_scheme address ≡ ok "https"

  -- What the production checks ask for.
  pub record IsReady (config : AppConfig) : Type 0 where
    pub access : IsStrong 32 config.jwt_access_secret
    pub refresh : IsStrong 32 config.jwt_refresh_secret
    pub qr : IsStrong 16 config.qr_signing_secret
    pub webhook : IsStrong 16 config.webhook_signing_secret
    pub master : IsStrong 32 config.encryption_master_key
    pub key : HasKey config.encryption_master_key
    pub no_mock : config.features.connector_mock ≡ false
    pub listed : is_empty config.webhook_url_allowlist ≡ false
    pub api : IsHttps config.api_base_url
    pub app : IsHttps config.app_base_url
    pub dashboard : IsHttps config.dashboard_base_url
    pub wallet : IsHttps config.wallet_base_url

  validate_production-IsReady :
      (config : AppConfig) → validate_production cipher parse_scheme config ≡ ok tt → IsReady config
  unfolding validate_production
  validate_production-IsReady config h =
      let (_, e1, h1) = bind-ok _ _ h in
      let (_, e2, h2) = bind-ok _ _ h1 in
      let (_, e3, h3) = bind-ok _ _ h2 in
      let (_, e4, h4) = bind-ok _ _ h3 in
      let (_, e5, h5) = bind-ok _ _ h4 in
      let (k, e6, h6) = bind-ok _ _ h5 in
      let key = map_err-ok _ _ e6 in
      let (e7, h7) = fail_if-ok _ _ _ h6 in
      let (e8, h8) = fail_if-ok _ _ _ h7 in
      let (_, e9, h9) = bind-ok _ _ h8 in
      let (_, e10, h10) = bind-ok _ _ h9 in
      let (_, e11, h11) = bind-ok _ _ h10 in
      record {
        access = check_secret-ok _ 32 config.jwt_access_secret e1;
        refresh = check_secret-ok _ 32 config.jwt_refresh_secret e2;
        qr = check_secret-ok _ 16 config.qr_signing_secret e3;
        webhook = check_secret-ok _ 16 config.webhook_signing_secret e4;
        master = check_secret-ok _ 32 config.encryption_master_key e5;
        key = (k, key, decode_master_key-length (codes config.encryption_master_key) key);
        no_mock = e7;
        listed = e8;
        api = require_https-ok config.api_base_url _ e9;
        app = require_https-ok config.app_base_url _ e10;
        dashboard = require_https-ok config.dashboard_base_url _ e11;
        wallet = require_https-ok config.wallet_base_url _ h11;
      }

  -- A configuration for production that is accepted has secrets that are long enough, not blank and without `replace_me` in any case,
  -- a master key of 32 bytes, no mock connector, an allowlist for webhooks, HTTPS addresses throughout, and
  -- no SQLite database.
  pub validate_guard :
      (config : AppConfig)
      → is_production config ≡ true
      → validate cipher parse_scheme config ≡ ok tt
      → IsReady config × (starts_with (codes config.database_url) (codes "sqlite") ≡ false)
  unfolding validate
  validate_guard config production h =
      let (_, _, h1) = bind-ok (map_err url (parse_scheme config.api_base_url)) _ h in
      let (_, _, h2) =
        bind-ok (check_length "JWT_ACCESS_SECRET" 32 config.jwt_access_secret) _ h1 in
      let (_, _, h3) =
        bind-ok (check_length "JWT_REFRESH_SECRET" 32 config.jwt_refresh_secret) _ h2 in
      let (_, _, h4) =
        bind-ok (check_length "QR_SIGNING_SECRET" 16 config.qr_signing_secret) _ h3 in
      let (_, _, h5) =
        bind-ok (check_length "WEBHOOK_SIGNING_SECRET" 16 config.webhook_signing_secret) _ h4 in
      let (e6, h6) =
        fail_if-ok
          (starts_with (codes config.database_url) (codes "sqlite") && is_production config)
          (load "SQLite") _ h5 in
      (validate_production-IsReady config (branch _ _ production h6), first_false _ _ production e6)
