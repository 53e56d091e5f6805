-- ===== src/Tests/Desk.antt =====
-- The administration on concrete inputs: keys, endpoints and connectors.
use vega_trix.Base.{
  ℕ, ◌≡◌, ◌≢◌, refl, sym, ap, String, true, false, none, some, List, [], ◌∷◌, ◌++◌, ok, err, arith,
  find, Each, str_eq,
}
use vega_trix.Base.Text.{codes, trim, trim_text, utf8, is_whitespace}
use vega_trix.Domain.Ids.{parse_prefixed}
use vega_trix.Domain.Webhook.{WebhookDelivery, pending}
use vega_trix.Base.Machine.{Uuid}
use vega_trix.Crypto.Envelope.{
  decode_master_key, decoded_key, open_secret_value, starts_with, is_secret_ref, seal_if_plaintext,
}
use vega_trix.Config.{contains}
use vega_trix.Crypto.Envelope.RoundTrip.{Seals}
use vega_trix.Application.Ports.{ApiKeyRecord}
use vega_trix.Application.Exec.{World}
use vega_trix.Persistence.Db.{ConnectorRow, DeliveryRow}
use vega_trix.Persistence.Accounts.{find_by_fingerprint, insert_key}
use vega_trix.Persistence.Admin.{
  is_own, update_webhook_endpoint, update_connector_admin, is_reached, list_deliveries_for_payment,
}
use vega_trix.Persistence.Settings as Settings
use vega_trix.Worker.Send.{resolve_webhook_secret}
use vega_trix.Api.Error.{unauthorized}
use vega_trix.Api.Auth.{AuthContext, AuthLibrary, require_admin, authenticate_api_key}
use vega_trix.Api.Admin.{AdminEnv, parse_id, merchant_of, generate, seal_connector_ref}
use vega_trix.Api.Admin.Keys.{
  CreateApiKeyBody, CreatedKey, create_api_key, checked_name, store_key, hashed, save_key, new_key,
  revoke_api_key, parse_api_key_uuid, revoked_answer,
}
use vega_trix.Api.Admin.Keys.Cycle.{holder, create_api_key-authenticates}
use vega_trix.Api.Admin.Keys.Revocation.{revoke_api_key-authenticate}
use vega_trix.Api.Admin.Hooks.{
  ShownSecret, UpdateWebhookBody, change_webhook_endpoint, rotate_webhook_secret, store_change,
  list_webhook_deliveries,
}
use vega_trix.Api.Admin.Hooks.Rotation.{rotate_webhook_secret-resolve}
use vega_trix.Api.Admin.Hooks.Tenants.{
  IsSentTo, others, change_webhook_endpoint-others, list_webhook_deliveries-tenant,
}
use vega_trix.Api.Admin.Connectors.{
  update_connector, validate_connector_ref, looks_like_live_psp, is_env_ref, sealed_ref,
  store_connector, redact_configuration_ref, shown_plain,
}
use vega_trix.Api.Admin.Connectors.Sealed.{IsNoCredential, update_connector-shown}
use vega_trix.Tests.Data.{shop, noon, bank, coffee, outbox_of}
use vega_trix.Tests.Callers.{user}
use vega_trix.Tests.Limits.{defaults}
use vega_trix.Tests.Hooks.{box, twelve, broken, station}

abbrev registrar : AuthLibrary
registrar = record {
  uuid = record { simple = λ id. id ∷ []; parse_str = λ s. some 7 };
  sha256_hex = λ key. "digest";
  verify_secret = λ key hash. str_eq hash "hash";
  encode = λ secret claims. none;
  decode = λ t secret token. none;
}

abbrev pub desk : AdminEnv
desk = record {
  auth = registrar;
  cipher = box;
  encryption_master_key = codes "0123456789abcdef0123456789abcdef";
  hex_bytes = λ k. b'0' ∷ [];
  aead_nonce = λ k. twelve;
  hash_secret = λ salt secret. some "hash";
  print_uuid = λ id. "key-7";
  collate = λ s t. true;
  parse_uri = λ s. none;
}

abbrev counter : CreatedKey
counter = record { id = 100; name = "counter"; merchant_id = 7; secret = codes "opk_0" }

abbrev counter_body : CreateApiKeyBody
counter_body = record { name = " counter "; merchant_id = some (codes "mch_7") }

abbrev opened : World
opened = (create_api_key desk user counter_body noon).1

counter_created : create_api_key desk user counter_body noon ≡ (ok counter, opened)
unfolding create_api_key require_admin checked_name merchant_of parse_id parse_prefixed store_key
    generate hashed save_key new_key insert_key trim_text utf8 is_whitespace
counter_created = refl

create_api_key-authenticates_example :
    authenticate_api_key registrar (codes "opk_0") opened ≡ (ok (holder desk user counter), opened)
create_api_key-authenticates_example =
    create_api_key-authenticates desk user counter_body noon opened counter counter_created
      (λ salt hash e. ap (λ o. elim o [ none ↦ false | some h ↦ str_eq h "hash" ]) (sym e))

-- A key of the tenant 7, in use.
abbrev worn : ApiKeyRecord
worn = record {
  id = "key-7";
  tenant_id = 7;
  merchant_id = some 3;
  name = "till";
  hash = "hash";
  fingerprint = "digest";
  scopes = [];
  revoked = false;
}

abbrev worn_in : World
worn_in = record noon { db = record shop { api_keys = record { key = worn; created_at = 0 } ∷ [] } }

abbrev withdrawn : World
withdrawn = (revoke_api_key desk user (codes "key_7") worn_in).1

worn_revoked : revoke_api_key desk user (codes "key_7") worn_in ≡ (ok tt, withdrawn)
unfolding revoke_api_key require_admin parse_api_key_uuid parse_prefixed revoked_answer
    Settings.revoke_api_key
worn_revoked = refl

worn_id : parse_api_key_uuid desk (codes "key_7") ≡ ok 7
unfolding parse_api_key_uuid parse_prefixed
worn_id = refl

worn_found : find_by_fingerprint "digest" worn_in.db ≡ (ok (some worn), worn_in.db)
unfolding find_by_fingerprint
worn_found = refl

revoke_api_key-authenticate_example :
    (◌≡◌ {A = String} "key-7" "key-7"
      → ◌≡◌ {A = ℕ} 7 7
      → authenticate_api_key registrar (codes "opk_0") withdrawn
        ≡ (err (unauthorized "revoked key"), withdrawn))
    × (◌≢◌ {A = ℕ} 7 7
        → (authenticate_api_key registrar (codes "opk_0") withdrawn).0
          ≡ (authenticate_api_key registrar (codes "opk_0") worn_in).0)
revoke_api_key-authenticate_example =
    revoke_api_key-authenticate desk user (codes "key_7") (codes "opk_0") 7 worn worn_in withdrawn
      worn_revoked worn_id worn_found

opened_master : decode_master_key box desk.encryption_master_key ≡ ok desk.encryption_master_key
unfolding decode_master_key decoded_key utf8 trim is_whitespace
opened_master = refl

-- What the cipher does to a text.
sealed_by_box : (text : List ℕ) → Seals box desk.encryption_master_key twelve text
sealed_by_box text = record {
  sealed = 1 ∷ text;
  accepted = refl;
  drawn = refl;
  seals = refl;
  tagged = omega arith;
  unseals = refl;
  base64 = refl;
  utf8 = refl;
}

abbrev hooked : World
hooked = record noon { db = record shop { webhook_endpoints = record broken { id = 7 } ∷ [] } }

abbrev rotated : World
rotated = (rotate_webhook_secret desk user (codes "whe_1") hooked).1

abbrev new_reference : List ℕ
new_reference = codes "enc:v1:" ++ twelve ++ 1 ∷ codes "whsec_0"

abbrev shown_once : ShownSecret
shown_once = record {
  endpoint = record broken { id = 7; signing_secret_ref = new_reference; updated_at = 500 };
  secret = codes "whsec_0";
}

hook_parsed : parse_id desk (b'w' ∷ b'h' ∷ b'e' ∷ []) (codes "whe_1") ≡ ok 7
unfolding parse_id parse_prefixed
hook_parsed = refl

rotation : rotate_webhook_secret desk user (codes "whe_1") hooked ≡ (ok shown_once, rotated)
unfolding rotate_webhook_secret require_admin parse_id parse_prefixed generate seal_connector_ref
    store_change update_webhook_endpoint decode_master_key trim is_whitespace seal_if_plaintext
rotation = refl

rotate_webhook_secret-resolve_example :
    (◌≡◌ {A = List ℕ} (codes "whsec_0") (codes "whsec_0"))
    × (find (is_own 7 7) rotated.db.webhook_endpoints ≡ some shown_once.endpoint)
    × (resolve_webhook_secret
          (record station {
            cipher = box;
            config = record station.config { encryption_master_key = desk.encryption_master_key };
          })
          shown_once.endpoint
        ≡ codes "whsec_0")
rotate_webhook_secret-resolve_example =
    rotate_webhook_secret-resolve desk desk.encryption_master_key hooked opened_master
      (sealed_by_box (codes "whsec_0")) station user (codes "whe_1") 7 rotated shown_once
      hook_parsed rotation

-- An endpoint of another tenant has the same identifier.
abbrev shared : World
shared = record noon {
  db = record shop {
    webhook_endpoints = record broken { id = 7; tenant_id = 8 } ∷ record broken { id = 7 } ∷ [];
  };
}

abbrev disable : UpdateWebhookBody
disable = record { url = none; event_types = none; status = some "disabled" }

change_webhook_endpoint-others_example :
    others 7 (change_webhook_endpoint desk defaults user (codes "whe_1") disable shared).1.db
    ≡ others 7 shared.db
change_webhook_endpoint-others_example =
    change_webhook_endpoint-others desk defaults user (codes "whe_1") disable shared

-- An administrator of another tenant.
abbrev neighbour : AuthContext
neighbour = record user { tenant_id = 8 }

admitted : (require_admin user ≡ ok tt) × (require_admin neighbour ≡ ok tt)
unfolding require_admin
admitted = (refl, refl)

-- A delivery to an endpoint of each tenant, both for the same payment.
abbrev to_endpoint : Uuid → DeliveryRow
to_endpoint endpoint = record {
  delivery = record {
    id = endpoint;
    webhook_endpoint_id = endpoint;
    event_id = 301;
    payload_version = "2026-08-18";
    status = pending;
    attempt_count = 0;
    next_retry_at = none;
    response_code = none;
    last_error_safe = none;
    created_at = 0;
    updated_at = 0;
  };
  payload = some (outbox_of (record coffee { id = 7 })).payload;
}

abbrev mailed : World
mailed = record noon {
  db = record shop {
    webhook_endpoints = broken ∷ record broken { id = 81; tenant_id = 8 } ∷ [];
    webhook_deliveries = to_endpoint 80 ∷ to_endpoint 81 ∷ [];
  };
}

-- Only the first of them is listed.
own_mail :
    list_webhook_deliveries desk user (some (codes "pay_1")) mailed
    ≡ (ok ((to_endpoint 80).delivery ∷ []), mailed)
unfolding list_webhook_deliveries require_admin parse_id parse_prefixed list_deliveries_for_payment
own_mail = refl

list_webhook_deliveries-tenant_example :
    ((raw : List ℕ) (ds : List WebhookDelivery) (w' : World)
      → list_webhook_deliveries desk user (some raw) mailed ≡ (ok ds, w')
      → Each (IsSentTo 7 mailed.db.webhook_endpoints) ds)
    × (list_webhook_deliveries desk user none mailed
        ≡ list_webhook_deliveries desk neighbour none mailed)
list_webhook_deliveries-tenant_example =
    list_webhook_deliveries-tenant desk user neighbour mailed admitted.0 admitted.1

abbrev sent : List ℕ
sent = codes " env:BANK_KEY"

abbrev moved_bank : ConnectorRow
moved_bank = record bank {
  configuration_ref = codes "enc:v1:" ++ twelve ++ 1 ∷ codes "env:BANK_KEY";
}

abbrev configured : World
configured =
    (update_connector desk user "bank" (record { status = none; configuration_ref = some sent })
      noon).1

bank_changed :
    update_connector desk user "bank" (record { status = none; configuration_ref = some sent }) noon
    ≡ (ok (moved_bank, ("encrypted_ref", codes "env:BANK_KEY")), configured)
unfolding update_connector require_admin validate_connector_ref looks_like_live_psp is_env_ref
    sealed_ref store_connector redact_configuration_ref shown_plain seal_connector_ref
    update_connector_admin trim is_whitespace utf8 decode_master_key decoded_key open_secret_value
    starts_with contains is_secret_ref seal_if_plaintext
bank_changed = refl

trimmed_sent : trim sent ≡ codes "env:BANK_KEY"
unfolding trim is_whitespace
trimmed_sent = refl

update_connector-shown_example :
    IsNoCredential (trim sent)
    × (◌≡◌ {A = String × List ℕ}
        ("encrypted_ref", codes "env:BANK_KEY")
        ("encrypted_ref", utf8 (trim sent)))
    × (find (is_reached 7 "bank") configured.db.connectors ≡ some moved_bank)
    × (open_secret_value box desk.encryption_master_key moved_bank.configuration_ref
        ≡ ok (utf8 (trim sent)))
update_connector-shown_example =
    update_connector-shown desk desk.encryption_master_key opened_master user "bank" none sent noon
      configured moved_bank ("encrypted_ref", codes "env:BANK_KEY")
      (sealed_by_box (utf8 (trim sent))) (rw trimmed_sent refl) bank_changed
