-- ===== src/Api/Admin/Keys/Cycle.antt =====
-- An API key that is made and used (crates/openpay-api/src/admin.rs and auth.rs).
use vega_trix.Base.{
  ℕ, ◌≡◌, refl, ap, ◌∙◌, ◌⊎◌, inl, inr, String, Bool, true, some, List, [], ◌∷◌, ok, err, arith,
  any, find, str_eq, eq_refl, Bool-cases, find-append_one, ok_or-ok,
}
use mathlib.Core.Path.{subst}
use vega_trix.Base.Machine.{Uuid, Instant}
use vega_trix.Base.Text.{codes}
use vega_trix.Application.Ports.{ApiKeyRecord, infra, RepositoryError}
use vega_trix.Application.Exec.{World}
use vega_trix.Persistence.Db.{Db, ApiKeyRow}
use vega_trix.Persistence.Accounts.{find_by_fingerprint, insert_key, key_refers}
use vega_trix.Api.Http.{bind-ok, lift}
use vega_trix.Api.Auth.{AuthContext, require_admin, admit_key, authenticate_api_key}
use vega_trix.Api.Auth.Sessions.{known_key}
use vega_trix.Api.Admin.{AdminEnv, generate, merchant_of}
use vega_trix.Api.Admin.Keys.{
  CreateApiKeyBody, CreatedKey, new_key, hashed, checked_name, save_key, store_key, create_api_key,
}

abbrev pub has_print : String → ApiKeyRow → Bool
has_print print row = str_eq row.key.fingerprint print

pub find_by_fingerprint_found :
    (print : String) (db : Db) (row : ApiKeyRow)
    → find (has_print print) db.api_keys ≡ some row
    → find_by_fingerprint print db ≡ (ok (some row.key), db)
unfolding find_by_fingerprint
find_by_fingerprint_found print db row e = rw (e, find_by_fingerprint) refl

-- A key that is inserted is the one that its fingerprint finds.
insert_key-cases :
    (key : ApiKeyRecord) (t : Instant) (db : Db)
    → ((e : RepositoryError) × ((insert_key key t db).0 ≡ err e))
      ⊎ (((insert_key key t db).0 ≡ ok tt)
          × (find_by_fingerprint key.fingerprint (insert_key key t db).1
              ≡ (ok (some key), (insert_key key t db).1)))
unfolding insert_key
insert_key-cases key t db = elim (Bool-cases (any (has_print key.fingerprint) db.api_keys)) [
  | inl taken ↦ inl (infra "duplicate fingerprint", rw taken refl)
  | inr new ↦ elim (Bool-cases (key_refers key db)) [
    | inr missing ↦ inl (infra "foreign key", rw (new, missing) refl)
    | inl there ↦ inr (
      rw (new, there) refl,
      rw (new, there)
          (find_by_fingerprint_found key.fingerprint _ (record { key = key; created_at = t })
            (find-append_one (has_print key.fingerprint) db.api_keys
              (record { key = key; created_at = t }) new (eq_refl key.fingerprint))),
    )
  ]
]

module _ (env : AdminEnv) where
  -- The caller that a new key authenticates.
  abbrev pub holder : AuthContext → CreatedKey → AuthContext
  holder auth made = record {
    tenant_id = auth.tenant_id;
    merchant_id = some made.merchant_id;
    actor_id = env.print_uuid made.id;
    role = "merchant";
    scopes = codes "merchant" ∷ [];
  }

  -- The hash of a secret verifies it.
  abbrev pub Verifies : List ℕ → Type 0
  Verifies secret =
      (salt : ℕ) (hash : String)
      → env.hash_secret salt secret ≡ some hash
      → env.auth.verify_secret secret hash ≡ true

  save_key-found :
      (auth : AuthContext) (hash : String) (made made' : CreatedKey) (w w' : World)
      → save_key env auth hash made w ≡ (ok made', w')
      → (made' ≡ made)
        × (find_by_fingerprint (env.auth.sha256_hex made.secret) w'.db
            ≡ (ok (some (new_key env auth made hash)), w'.db))
  unfolding save_key new_key
  save_key-found auth hash made made' w w' h =
      elim (insert_key-cases (new_key env auth made hash) (w.clock w.read) w.db) [
        | inl (e, refused) ↦ absurd (cc (rw refused at h))
        | inr (done, found) ↦ ground (arith, done, found)
      ]

  hashed-some :
      (secret : List ℕ) (hash : String) (w w' : World)
      → hashed env secret w ≡ (ok hash, w')
      → env.hash_secret w.rolled secret ≡ some hash
  unfolding hashed
  hashed-some secret hash w w' h = ok_or-ok _ _ (ap (λ r. r.0) h)

  admit_key-new :
      (auth : AuthContext) (made : CreatedKey) (hash : String)
      → env.auth.verify_secret made.secret hash ≡ true
      → admit_key env.auth made.secret (new_key env auth made hash) ≡ ok (holder auth made)
  unfolding admit_key new_key
  admit_key-new auth made hash verified = rw verified refl

  save_key-authenticates :
      (auth : AuthContext) (hash : String) (made : CreatedKey) (w w' : World)
      → find_by_fingerprint (env.auth.sha256_hex made.secret) w'.db
        ≡ (ok (some (new_key env auth made hash)), w'.db)
      → env.auth.verify_secret made.secret hash ≡ true
      → authenticate_api_key env.auth made.secret w' ≡ (ok (holder auth made), w')
  save_key-authenticates auth hash made w w' found verified =
      known_key env.auth made.secret w' (new_key env auth made hash) found
      ∙ ap (λ r. (r, w')) (admit_key-new auth made hash verified)

  store_key-authenticates :
      (auth : AuthContext) (name : String) (merchant : Uuid) (w w' : World) (made : CreatedKey)
      → store_key env auth name merchant w ≡ (ok made, w')
      → Verifies made.secret
      → (authenticate_api_key env.auth made.secret w' ≡ (ok (holder auth made), w'))
        × (made.merchant_id ≡ merchant)
  unfolding store_key
  store_key-authenticates auth name merchant w w' made h verifies =
      let (secret, w1, e1, h1) = bind-ok (generate env "opk_") _ w h in
      let (hash, w2, e2, h2) = bind-ok (hashed env secret) _ w1 h1 in
      let m : CreatedKey = record {
        id = w2.uuids w2.drawn;
        name = name;
        merchant_id = merchant;
        secret = secret;
      } in
      let (same, found) = save_key-found auth hash m made _ w' h2 in
      let good : Verifies secret = subst (λ x. Verifies x.secret) same verifies in
      rw same (
        save_key-authenticates auth hash m w w' found
            (good _ hash (hashed-some secret hash w1 w2 e2)),
        refl,
      )

  -- A key that was created authenticates at once: its secret, as shown to the administrator, admits a
  -- caller with the tenant of the administrator, the merchant of the key and the scope `merchant`. The
  -- hash of the secret must verify it.
  pub create_api_key-authenticates :
      (auth : AuthContext) (body : CreateApiKeyBody) (w w' : World) (made : CreatedKey)
      → create_api_key env auth body w ≡ (ok made, w')
      → Verifies made.secret
      → authenticate_api_key env.auth made.secret w' ≡ (ok (holder auth made), w')
  unfolding create_api_key
  create_api_key-authenticates auth body w w' made h verifies =
      let (_, w1, _, h1) = bind-ok (lift (require_admin auth)) _ w h in
      let (name, w2, _, h2) = bind-ok (lift (checked_name body.name)) _ w1 h1 in
      let (merchant, w3, _, h3) = bind-ok (merchant_of env auth body.merchant_id) _ w2 h2 in
      (store_key-authenticates auth name merchant w3 w' made h3 verifies).0
