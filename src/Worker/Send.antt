-- ===== src/Worker/Send.antt =====
-- Sending one delivery (crates/openpay-worker/src/lib.rs). The HTTP client, the resolver, the
-- JSON codec and the random numbers are parameters; the network may answer differently at each moment.
-- The text of an error is kept by its parts.
pub mod Safe
use vega_trix.Base.{
  ℕ, suc, String, Bool, not, ◌&&◌, ◌||◌, Option, none, some, List, Result, ok, err,
  ◌>>=◌ as and_then, map_err, is_empty, select, ltb, leb, if◌then◌else◌,
}
use vega_trix.Base.Int.{pos}
use vega_trix.Base.Machine.{unix_timestamp}
use vega_trix.Base.Text.{codes}
use vega_trix.Domain.Webhook.{WebhookEndpoint}
use vega_trix.Crypto.Library.{Library, CryptoError}
use vega_trix.Crypto.Webhook.{IntText, sign_webhook}
use vega_trix.Crypto.Envelope.{
  Cipher, starts_with, is_encrypted_envelope, decode_master_key, open_secret_value,
}
use vega_trix.Application.Ports.{EventPayload}
use vega_trix.Application.Exec.{World, Exec, query, ◌>>=◌}
use vega_trix.Persistence.Accounts.{get_tenant_settings_json}
use vega_trix.Worker.Net.{NetLibrary, UrlError, assert_safe_webhook_url}

-- The fields of `AppConfig` that the worker reads.
pub record WebhookConfig : Type 0 where
  pub webhook_timeout_ms : ℕ
  pub webhook_url_allowlist : List (List ℕ)
  pub webhook_signing_secret : List ℕ
  pub encryption_master_key : List ℕ
  pub webhook_max_attempts : ℕ

-- What the JSON of a tenant's settings holds: a number, and the strings of an array.
pub record SettingsJson : Type 0 where
  pub webhook_timeout_ms : String → Option ℕ
  pub webhook_url_allowlist : String → Option (List (List ℕ))

pub record WebhookRequest : Type 0 where
  pub url : List ℕ
  pub timeout_ms : ℕ
  pub signature : List ℕ
  pub event : String
  pub body : List ℕ

pub data SendError : Type 0 where
  ssrf : UrlError → SendError
  body : String → SendError
  signing : CryptoError → SendError
  network : String → SendError
  http : ℕ → SendError

pub record WorkerEnv : Type 0 where
  pub config : WebhookConfig
  pub settings : SettingsJson
  pub lib : Library
  pub cipher : Cipher
  pub int : IntText
  pub net : World → NetLibrary
  -- `serde_json::to_vec`; `none` is null
  pub to_vec : Option EventPayload → Result String (List ℕ)
  -- the status of the response, or why there is none
  pub post : World → WebhookRequest → Result String ℕ
  -- the text of an error
  pub print : SendError → String
  -- `gen_range(0.0..0.5)`, in units of 2^-53
  pub jitter : World → ℕ

abbrev is_success : ℕ → Bool
is_success code = leb 200 code && leb code 299

abbrev event_name : Option EventPayload → String
event_name none = "unknown"
event_name (some payload) = payload.event_type

abbrev at_least : ℕ → ℕ → ℕ
at_least low n = if ltb n low then low else n

abbrev or_else : {A : Type 0} → Option A → A → A
or_else none a = a
or_else (some b) a = b

module _ (env : WorkerEnv) where
  -- `webhook_policy`, at the settings that were stored
  unfoldable pub policy_of : Option String → ℕ × List (List ℕ)
  policy_of none = (env.config.webhook_timeout_ms, env.config.webhook_url_allowlist)
  policy_of (some json) = (
    or_else (env.settings.webhook_timeout_ms json) env.config.webhook_timeout_ms,
    elim (env.settings.webhook_url_allowlist json) [
      | none ↦ env.config.webhook_url_allowlist
      | some hosts ↦ select (λ s. not (is_empty s)) hosts
    ],
  )

  -- The secret of an envelope, if it opens.
  unfoldable pub opened_secret : List ℕ → Option (List ℕ)
  opened_secret refer =
      elim (and_then (decode_master_key env.cipher env.config.encryption_master_key)
        (λ key. open_secret_value env.cipher key refer)) [
          | err e ↦ none
          | ok plain ↦ some (
              if starts_with plain (codes "env:") then env.config.webhook_signing_secret else plain)
        ]

  -- `resolve_webhook_secret`
  unfoldable pub resolve_webhook_secret : WebhookEndpoint → List ℕ
  resolve_webhook_secret endpoint =
      let refer : List ℕ = endpoint.signing_secret_ref in
      if starts_with refer (codes "env:") || is_empty refer
      then env.config.webhook_signing_secret
      else if is_encrypted_envelope refer
      then or_else (opened_secret refer) env.config.webhook_signing_secret
      else env.config.webhook_signing_secret

  -- The signed request and its answer.
  unfoldable pub answer :
      WebhookEndpoint → Option EventPayload → ℕ → List ℕ → World → Result SendError ℕ
  answer endpoint payload timeout_ms bytes w =
      and_then
        (map_err signing (
          sign_webhook env.int env.lib (resolve_webhook_secret endpoint)
            (pos (unix_timestamp (w.clock w.read))) bytes))
        λ sig.
          and_then
            (map_err network (
              env.post w (record {
                url = endpoint.url;
                timeout_ms = at_least 500 timeout_ms;
                signature = sig;
                event = event_name payload;
                body = bytes;
              })))
            λ status. if is_success status then ok status else err (http status)

  -- `send_one` once the target is known to be safe.
  unfoldable pub post_to : WebhookEndpoint → Option EventPayload → ℕ → Exec (Result SendError ℕ)
  post_to endpoint payload timeout_ms w = elim (env.to_vec payload) [
    | err e ↦ (ok (err (body e)), w)
    | ok bytes ↦ (ok (answer endpoint payload timeout_ms bytes w), record w { read = suc w.read })
  ]

  -- `send_one` once the policy is read.
  unfoldable pub send_under :
      ℕ × List (List ℕ) → WebhookEndpoint → Option EventPayload → Exec (Result SendError ℕ)
  send_under policy endpoint payload w =
      elim (assert_safe_webhook_url (env.net w) endpoint.url policy.1) [
        | err e ↦ (ok (err (ssrf e)), w)
        | ok u ↦ post_to endpoint payload policy.0 w
      ]

  -- `send_one`
  unfoldable pub send_one : WebhookEndpoint → Option EventPayload → Exec (Result SendError ℕ)
  send_one endpoint payload = do
    json ← query (get_tenant_settings_json endpoint.tenant_id)
    send_under (policy_of json) endpoint payload
