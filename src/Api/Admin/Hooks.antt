-- ===== src/Api/Admin/Hooks.antt =====
-- The webhook endpoints of a tenant (crates/openpay-api/src/admin.rs).
pub mod Events
pub mod Rotation
pub mod Tenants
use mathlib.Core.Option
use vega_trix.Base.{
  ℕ, String, Bool, true, false, not, ◌&&◌, ◌||◌, Option, none, some, List, [], ◌∷◌, ◌++◌, map,
  Result, ok, err, any, select, is_empty, str_eq, length, drop, ◌-◌, ltb, if◌then◌else◌,
}
use Prim.Native.String.{compare}
use Prim.Native.Nat.{Ordering}
use vega_trix.Base.Machine.{Uuid}
use vega_trix.Base.Sort.{sort_by}
use vega_trix.Base.Text.{codes, to_lower, text_eq, trim_text}
use vega_trix.Domain.Webhook.{WebhookEndpoint, WebhookEndpointStatus, WebhookDelivery}
use vega_trix.Crypto.Qr.{pay}
use vega_trix.Crypto.Envelope.{starts_with, is_encrypted_envelope}
use vega_trix.Application.Exec.{query, draw, now}
use vega_trix.Persistence.Admin.{
  EndpointChange, update_webhook_endpoint, list_deliveries_for_payment,
}
use vega_trix.Persistence.Settings.{OperatorSettings, insert_webhook_endpoint}
use vega_trix.Persistence.Webhooks.{list_webhook_endpoints_admin, list_recent_deliveries}
use vega_trix.Api.Error.{ApiError}
use vega_trix.Api.Http.{Http, pure, lift, service, ◌>>=◌, ◌>>◌}
use vega_trix.Api.Auth.{AuthContext, require_admin}
use vega_trix.Api.Admin.{
  Uri, AdminEnv, refused, parse_id, merchant_of, generate, seal_connector_ref,
}

abbrev hook_prefix : List ℕ
hook_prefix = b'w' ∷ b'h' ∷ b'e' ∷ []

-- `DEFAULT_EVENTS`
abbrev pub default_events : List String
default_events =
    "payment.created" ∷ "payment.requires_action" ∷ "payment.processing" ∷ "payment.authorized"
    ∷ "payment.settled" ∷ "payment.failed" ∷ "payment.cancelled" ∷ "payment.expired"
    ∷ "payment.refunded" ∷ []

-- The order of `String`.
abbrev pub text_le : String → String → Bool
text_le s t = elim (compare s t) [ Ordering.gt ↦ false | _ ↦ true ]

-- `Vec::dedup`, after the first element
unfoldable pub dedup_after : String → List String → List String
dedup_after s [] = []
dedup_after s (t ∷ ts) =
    let same = dedup_after s ts in
    let new = t ∷ dedup_after t ts in if str_eq t s then same else new

unfoldable pub dedup : List String → List String
unfolding dedup_after
dedup [] = []
dedup (s ∷ ss) = s ∷ dedup_after s ss

-- The names that `normalize_event_types` sorts.
abbrev pub trimmed : List String → List String
trimmed items = select (λ s. not (str_eq s "")) (map trim_text items)

abbrev pub or_default_events : List String → List String
or_default_events [] = default_events
or_default_events (s ∷ ss) = s ∷ ss

-- `normalize_event_types`
unfoldable pub normalize_event_types : Option (List String) → List String
unfolding dedup
normalize_event_types none = or_default_events (dedup (sort_by text_le (trimmed default_events)))
normalize_event_types (some raw) = or_default_events (dedup (sort_by text_le (trimmed raw)))

-- `signing_secret_kind`
unfoldable pub signing_secret_kind : List ℕ → String
signing_secret_kind stored =
    if starts_with stored (codes "env:")
    then "env"
    else if is_encrypted_envelope stored
    then "endpoint"
    else "unknown"

-- `str::ends_with`
unfoldable pub ends_with : List ℕ → List ℕ → Bool
ends_with s suffix =
    not (ltb (length s) (length suffix)) && text_eq (drop (length s - length suffix) s) suffix

-- Whether an entry of the allowlist names the host or a domain above it.
unfoldable pub names_host : List ℕ → List ℕ → Bool
unfolding ends_with
names_host host entry =
    text_eq (map to_lower host) (map to_lower entry) || ends_with (map to_lower host) (b'.' ∷ entry)

-- The check of `validate_webhook_url` on the host.
unfoldable pub allowed_host : List (List ℕ) → List ℕ → Result ApiError (Unit {0})
allowed_host allowlist host =
    if is_empty allowlist || any (names_host host) allowlist
    then ok tt
    else refused "host is not in the webhook allowlist"

abbrev is_web : Option (List ℕ) → Bool
is_web none = false
is_web (some scheme) = text_eq scheme (codes "http") || text_eq scheme (codes "https")

abbrev pub parse_endpoint_status : Option String → Result ApiError (Option WebhookEndpointStatus)
parse_endpoint_status none = ok none
parse_endpoint_status (some raw) =
    if str_eq raw "active"
    then ok (some WebhookEndpointStatus.active)
    else if str_eq raw "disabled"
    then ok (some WebhookEndpointStatus.disabled)
    else refused "unknown webhook status"

pub record CreateWebhookBody : Type 0 where
  pub url : List ℕ
  pub event_types : Option (List String)
  pub merchant_id : Option (List ℕ)

pub record UpdateWebhookBody : Type 0 where
  pub url : Option (List ℕ)
  pub event_types : Option (List String)
  pub status : Option String

-- The secret that is shown once, with the endpoint.
pub record ShownSecret : Type 0 where
  pub endpoint : WebhookEndpoint
  pub secret : List ℕ

module _ (env : AdminEnv) where
  -- `validate_webhook_url`
  unfoldable pub validate_webhook_url : List ℕ → List (List ℕ) → Result ApiError (Unit {0})
  validate_webhook_url url allowlist = elim (env.parse_uri url) [
    | none ↦ refused "invalid webhook URL"
    | some uri ↦
        if is_web uri.scheme
        then (elim uri.host [
          | none ↦ refused "webhook URL missing host"
          | some host ↦ allowed_host allowlist host
        ])
        else refused "webhook URL must be http or https"
  ]

  -- `list_webhook_endpoints`: the rows whose fields the answer shows
  unfoldable pub list_webhook_endpoints : AuthContext → Http (List WebhookEndpoint)
  list_webhook_endpoints auth = do
    lift (require_admin auth)
    service (query (list_webhook_endpoints_admin auth.tenant_id))

  -- `create_webhook_endpoint`, at the settings in force
  unfoldable pub create_webhook_endpoint :
      OperatorSettings → AuthContext → CreateWebhookBody → Http ShownSecret
  create_webhook_endpoint op auth body = do
    lift (require_admin auth)
    lift (validate_webhook_url body.url op.webhook_url_allowlist)
    merchant ← merchant_of env auth body.merchant_id
    plaintext ← generate env "whsec_"
    refer ← seal_connector_ref env plaintext
    t ← service now
    id ← service draw
    let e : WebhookEndpoint = record {
      id = id;
      tenant_id = auth.tenant_id;
      merchant_id = merchant;
      url = body.url;
      event_types = normalize_event_types body.event_types;
      signing_secret_ref = refer;
      status = WebhookEndpointStatus.active;
      failure_count = 0;
      created_at = t;
      updated_at = t;
    }
    service (query (insert_webhook_endpoint e))
    pure (record { endpoint = e; secret = plaintext })

  -- The check of a new URL, if there is one.
  abbrev checked_url : Option (List ℕ) → List (List ℕ) → Result ApiError (Unit {0})
  checked_url none allowlist = ok tt
  checked_url (some url) allowlist = validate_webhook_url url allowlist

  -- `update_webhook_endpoint` of the store, at the clock of the server
  unfoldable pub store_change : Uuid → Uuid → EndpointChange → Http WebhookEndpoint
  store_change tenant id c = do
    t ← service now
    service (query (update_webhook_endpoint tenant id c t))

  -- `update_webhook_endpoint`
  unfoldable pub change_webhook_endpoint :
      OperatorSettings → AuthContext → List ℕ → UpdateWebhookBody → Http WebhookEndpoint
  change_webhook_endpoint op auth endpoint_id body = do
    lift (require_admin auth)
    id ← lift (parse_id env hook_prefix endpoint_id)
    lift (checked_url body.url op.webhook_url_allowlist)
    status ← lift (parse_endpoint_status body.status)
    store_change auth.tenant_id id (record {
      url = body.url;
      event_types = Option.map (λ raw. normalize_event_types (some raw)) body.event_types;
      status = status;
      signing_secret_ref = none;
    })

  -- `rotate_webhook_secret`
  unfoldable pub rotate_webhook_secret : AuthContext → List ℕ → Http ShownSecret
  rotate_webhook_secret auth endpoint_id = do
    lift (require_admin auth)
    id ← lift (parse_id env hook_prefix endpoint_id)
    plaintext ← generate env "whsec_"
    refer ← seal_connector_ref env plaintext
    updated ←
        store_change auth.tenant_id id (record {
          url = none;
          event_types = none;
          status = none;
          signing_secret_ref = some refer;
        })
    pure (record { endpoint = updated; secret = plaintext })

  -- `list_webhook_deliveries`, at the query parameter `payment_id`
  unfoldable pub list_webhook_deliveries :
      AuthContext → Option (List ℕ) → Http (List WebhookDelivery)
  list_webhook_deliveries auth (some raw) = do
    lift (require_admin auth)
    id ← lift (parse_id env pay raw)
    service (query (list_deliveries_for_payment auth.tenant_id id))
  list_webhook_deliveries auth none = do
    lift (require_admin auth)
    service (query (list_recent_deliveries 50))
