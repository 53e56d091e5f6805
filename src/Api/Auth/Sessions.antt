-- ===== src/Api/Auth/Sessions.antt =====
-- Which tokens and keys authenticate a caller (crates/openpay-api/src/auth.rs).
use vega_trix.Base.{
  ℕ, suc, ◌+◌, ◌≤◌, ◌≡◌, ◌↔◌, ◌∙◌, sym, ◌⊎◌, ap, refl, String, true, false, none, some, List, ◌++◌,
  ok, err, Option-cases, Bool-cases, ok-injective, inl, inr, find, str_eq, eq_refl, map,
}
use vega_trix.Base.Machine.{Uuid, Instant, seconds, unix_timestamp}
use vega_trix.Base.Text.{codes}
use vega_trix.Domain.Ids.{strip_prefix}
use vega_trix.Domain.Ids.RoundTrip.{parse_prefixed-as_prefixed}
use vega_trix.Crypto.Qr.{ten}
use vega_trix.Crypto.Envelope.{starts_with}
use vega_trix.Application.Ports.{ApiKeyRecord}
use vega_trix.Application.Exec.{World}
use vega_trix.Persistence.Accounts.{find_by_fingerprint}
use vega_trix.Api.Error.{unauthorized}
use vega_trix.Api.Auth.{
  AuthContext, AuthLibrary, JwtConfig, JwtClaims, scopes_for_role, claims_of, issue_tokens,
  decode_as, admit_key, authenticate_api_key, authenticate_user, from_request_parts, refresh,
}

module _ (lib : AuthLibrary) where
  -- What the dependencies promise of one token: it was encoded from the claims, and decodes to them until
  -- they expire.
  pub record Encodes (secret token : List ℕ) (claims : JwtClaims) : Type 0 where
    pub encodes : lib.encode secret claims ≡ some token
    pub decodes :
        (t : Instant) → unix_timestamp t ≤ claims.exp → lib.decode t secret token ≡ some claims
    pub no_key : starts_with token (codes "opk_") ≡ false

  module _ (config : JwtConfig) (user role : String) (tenant : Uuid) (w later : World)
      (access refresh_token : List ℕ)
      (a : Encodes config.jwt_access_secret access
        (claims_of lib user tenant role "access" 900 (w.clock w.read)))
      (r : Encodes config.jwt_refresh_secret refresh_token
        (claims_of lib user tenant role "refresh" 604800 (w.clock w.read))) where
    issue_tokens_lem :
        issue_tokens lib config user tenant role w
        ≡ (ok (access, refresh_token), record w { read = suc w.read })
    unfolding issue_tokens
    issue_tokens_lem = rw (a.encodes, r.encodes) refl

    abbrev pub caller : AuthContext
    caller = record {
      tenant_id = tenant;
      merchant_id = none;
      actor_id = user;
      role = role;
      scopes = scopes_for_role role;
    }

    abbrev one_later : World
    one_later = record later { read = suc later.read }

    decode_own :
        (typ : String) (lifetime : ℕ) (secret token : List ℕ)
        → Encodes secret token (claims_of lib user tenant role typ lifetime (w.clock w.read))
        → unix_timestamp (later.clock later.read)
          ≤ unix_timestamp (w.clock w.read + seconds lifetime)
        → decode_as lib typ secret token later
          ≡ (ok (claims_of lib user tenant role typ lifetime (w.clock w.read)), one_later)
    unfolding decode_as claims_of
    decode_own typ lifetime secret token e alive =
        rw (e.decodes (later.clock later.read) alive, eq_refl typ) refl

    decode_other :
        (typ asked : String) (lifetime : ℕ) (secret token : List ℕ)
        → Encodes secret token (claims_of lib user tenant role typ lifetime (w.clock w.read))
        → unix_timestamp (later.clock later.read)
          ≤ unix_timestamp (w.clock w.read + seconds lifetime)
        → str_eq typ asked ≡ false
        → decode_as lib asked secret token later
          ≡ (err (unauthorized "wrong token type"), one_later)
    unfolding decode_as claims_of
    decode_other typ asked lifetime secret token e alive differs =
        rw (e.decodes (later.clock later.read) alive, differs) refl

    -- The tokens that are issued for a user are accepted as the user's: the access token names the same
    -- tenant, user and role for fifteen minutes, and the refresh token is exchanged for the user's next
    -- pair for seven days. Where both secrets are the same, the access token is still no refresh token.
    pub issue_tokens-accepted :
        lib.uuid.parse_str (lib.uuid.simple tenant) ≡ some tenant
        → (issue_tokens lib config user tenant role w
            ≡ (ok (access, refresh_token), record w { read = suc w.read }))
          × (unix_timestamp (later.clock later.read) ≤ unix_timestamp (w.clock w.read + seconds 900)
              → from_request_parts lib config (some (codes "Bearer " ++ access)) later
                ≡ (ok caller, one_later))
          × (unix_timestamp (later.clock later.read)
                ≤ unix_timestamp (w.clock w.read + seconds 604800)
              → refresh lib config refresh_token later
                ≡ issue_tokens lib config user tenant role one_later)
          × (unix_timestamp (later.clock later.read) ≤ unix_timestamp (w.clock w.read + seconds 900)
              → config.jwt_refresh_secret ≡ config.jwt_access_secret
              → refresh lib config access later
                ≡ (err (unauthorized "wrong token type"), one_later))
    unfolding from_request_parts authenticate_user refresh strip_prefix claims_of
    issue_tokens-accepted uuid =
        let tenant_back = parse_prefixed-as_prefixed lib.uuid ten tenant uuid in
        (
          issue_tokens_lem,
          (λ alive. rw (a.no_key, decode_own "access" 900 _ access a alive, tenant_back) refl),
          (λ alive. rw (decode_own "refresh" 604800 _ refresh_token r alive, tenant_back) refl),
          (λ alive same. rw (same, decode_other "access" "refresh" 900 _ access a alive refl) refl),
        )

  key_found :
      (fingerprint : String) (w : World)
      → (find_by_fingerprint fingerprint w.db ≡ (ok none, w.db))
        ⊎ ((key : ApiKeyRecord) × (find_by_fingerprint fingerprint w.db ≡ (ok (some key), w.db)))
  unfolding find_by_fingerprint
  key_found fingerprint w =
      elim (Option-cases (find (λ row. str_eq row.key.fingerprint fingerprint) w.db.api_keys)) [
        | inl e ↦ inl (rw (e, find_by_fingerprint) refl)
        | inr (row, e) ↦ inr (row.key, rw (e, find_by_fingerprint) refl)
      ]

  -- The caller that the record of a key stands for.
  abbrev pub key_holder : ApiKeyRecord → AuthContext
  key_holder key = record {
    tenant_id = key.tenant_id;
    merchant_id = key.merchant_id;
    actor_id = key.id;
    role = "merchant";
    scopes = map codes key.scopes;
  }

  admit_key_iff :
      (token : List ℕ) (key : ApiKeyRecord) (auth : AuthContext)
      → (admit_key lib token key ≡ ok auth) ↔ (
          (key.revoked ≡ false)
          × (lib.verify_secret token key.hash ≡ true)
          × (auth ≡ key_holder key))
  unfolding admit_key
  admit_key_iff token key auth = elim (Bool-cases key.revoked) [
    | inl dead ↦ (λ h. absurd (cc (rw dead at h)), λ h. absurd (cc (dead, h.0)))
    | inr live ↦ elim (Bool-cases (lib.verify_secret token key.hash)) [
      | inr wrong ↦ (λ h. absurd (cc (rw (live, wrong) at h)), λ h. absurd (cc (wrong, h.1)))
      | inl right ↦ (
        (λ h. (live, right, sym (ok-injective (rw (live, right) at h)))),
        λ h. rw (live, right) (ap ok (sym h.2)),
      )
    ]
  ]

  unknown_key :
      (token : List ℕ) (w : World)
      → find_by_fingerprint (lib.sha256_hex token) w.db ≡ (ok none, w.db)
      → authenticate_api_key lib token w ≡ (err (unauthorized "unknown key"), w)
  unfolding authenticate_api_key
  unknown_key token w e = rw e refl

  pub known_key :
      (token : List ℕ) (w : World) (key : ApiKeyRecord)
      → find_by_fingerprint (lib.sha256_hex token) w.db ≡ (ok (some key), w.db)
      → authenticate_api_key lib token w ≡ (admit_key lib token key, w)
  unfolding authenticate_api_key
  known_key token w key e = rw e refl

  -- A key is accepted exactly if a record is stored under its digest that is not revoked and whose hash
  -- the key verifies. The caller then has the tenant, merchant, identifier and scopes of the record and the
  -- role of a merchant, whatever those scopes are. Authentication never writes anything, accepted or not.
  pub authenticate_api_key_guard :
      (token : List ℕ) (w : World) (auth : AuthContext)
      → ((authenticate_api_key lib token w).1 ≡ w)
        × (((authenticate_api_key lib token w).0 ≡ ok auth) ↔ (
            (key : ApiKeyRecord) × ((find_by_fingerprint (lib.sha256_hex token) w.db).0
              ≡ ok (some key))
            × (key.revoked ≡ false)
            × (lib.verify_secret token key.hash ≡ true)
            × (auth ≡ key_holder key)))
  authenticate_api_key_guard token w auth = elim (key_found (lib.sha256_hex token) w) [
    | inl e ↦ (
      ap (λ r. r.1) (unknown_key token w e),
      (
        (λ h. absurd (cc (ap (λ r. r.0) (unknown_key token w e), h))),
        λ (key, found, _, _, _). absurd (cc (ap (λ r. r.0) e, found)),
      ),
    )
    | inr (key, e) ↦
        let run = known_key token w key e in
        (
          ap (λ r. r.1) run,
          (
            (λ h.
                let (live, verified, is) =
                  (admit_key_iff token key auth).0 (sym (ap (λ r. r.0) run) ∙ h) in
                (key, ap (λ r. r.0) e, live, verified, is)),
            λ (other, found, live, verified, is).
                let same : key ≡ other = cc (ap (λ r. r.0) e, found) in
                ap (λ r. r.0) run ∙ (admit_key_iff token key auth).1 (rw same (live, verified, is)),
          ),
        )
  ]
