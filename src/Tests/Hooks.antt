-- ===== src/Tests/Hooks.antt =====
-- Webhooks on concrete inputs: deliveries, the circuit breaker, signatures and sealed secrets.
use vega_trix.Base.{
  ℕ, suc, ◌+◌, ◌≤◌, ◌<◌, ◌^◌, min, ◌≡◌, refl, true, false, none, some, List, [], ◌∷◌, ◌++◌, ok, err,
  arith, length, drop, String, Result, ◌⊎◌,
}
use vega_trix.Base.Int.{pos}
use vega_trix.Base.Machine.{Instant, seconds}
use vega_trix.Base.Text.{trim, is_whitespace}
use vega_trix.Domain.Webhook.{
  WebhookEndpoint, WebhookEndpointStatus, WebhookDelivery, pending, retrying,
}
use vega_trix.Crypto.Library.{expired}
use vega_trix.Crypto.Webhook.{IntText, t_tag, v1_tag, sign_webhook, verify_webhook}
use vega_trix.Crypto.Webhook.RoundTrip.{Signs, IsWithin, header_of, verify_webhook-sign_webhook}
use vega_trix.Crypto.Envelope.{
  Cipher, is_encrypted_envelope, starts_with, seal_if_plaintext, open_secret_value,
}
use vega_trix.Crypto.Envelope.RoundTrip.{Seals, envelope_of, open_secret_value-seal_if_plaintext}
use vega_trix.Domain.Ids.{strip_prefix}
use vega_trix.Persistence.Webhooks.{get_endpoint, record_webhook_endpoint_result}
use vega_trix.Application.Exec.{World}
use vega_trix.Worker.Circuit.{webhook_circuit_state, closed, opened, half_open}
use vega_trix.Worker.Publish.{drain_outbox}
use vega_trix.Worker.Publish.Probe.{deliveries_of, drain_outbox_probe}
use vega_trix.Worker.Send.{WorkerEnv, WebhookRequest, http, ssrf, send_one, policy_of}
use vega_trix.Worker.Send.Safe.{IsSafeUrl, send_one_guard}
use vega_trix.Worker.Net.{UrlError}
use vega_trix.Persistence.Accounts.{get_tenant_settings_json}
use vega_trix.Worker.Deliver.{
  backoff_base, exponential_backoff, conclude, reschedule, failed, retry_at,
}
use vega_trix.Worker.Deliver.Retry.{Rounds, IsCounted, Rounds-bound, exponential_backoff_exact}
use vega_trix.Worker.Deliver.Breaker.{after_failures, state_of, circuit_after_success}
use vega_trix.Tests.Data.{coffee, shop, noon, outbox_of}
use vega_trix.Tests.Nets.{lab, lab-ReadsNets}
use vega_trix.Tests.Tokens.{toy}

-- An endpoint that failed twenty times a moment ago.
abbrev pub broken : WebhookEndpoint
broken = record {
  id = 80;
  tenant_id = 7;
  merchant_id = 3;
  url = b'u' ∷ [];
  event_types = [];
  signing_secret_ref = [];
  status = WebhookEndpointStatus.active;
  failure_count = 20;
  created_at = 0;
  updated_at = 400;
}

-- Two events wait for it.
abbrev waiting : World
waiting = record noon {
  db = record shop {
    webhook_endpoints = broken ∷ [];
    outbox_events =
        record { record_of = outbox_of coffee; published_at = none }
        ∷ record { record_of = record (outbox_of coffee) { id = 302 }; published_at = none }
        ∷ [];
  };
}

drain_outbox_probe_example :
    (w' : World) × (drain_outbox waiting ≡ (ok tt, w'))
    × (deliveries_of 80 w'.db ≤ suc (deliveries_of 80 waiting.db))
unfolding webhook_circuit_state
drain_outbox_probe_example = drain_outbox_probe 80 waiting refl

exponential_backoff_exact_example :
    (exponential_backoff 3 4000000000000000 ≡ 2 ^ min 3 10)
    × (exponential_backoff 3 4000000000000000 ≤ 1024)
exponential_backoff_exact_example =
    exponential_backoff_exact 3 4000000000000000 (omega arith) (omega arith)

circuit_after_success_example :
    (e' : WebhookEndpoint) × ((get_endpoint 80
        (after_failures 80 (600 ∷ []) (record_webhook_endpoint_result 80 true 500 waiting.db).1)).0
      ≡ ok e')
    × (length {A = Instant} (600 ∷ []) < 20 → state_of 700 e' ≡ closed)
    × (20 ≤ length {A = Instant} (600 ∷ []) → 700 < 600 + seconds 60 → state_of 700 e' ≡ opened)
    × (20 ≤ length {A = Instant} (600 ∷ []) → 600 + seconds 60 ≤ 700 → state_of 700 e' ≡ half_open)
unfolding get_endpoint
circuit_after_success_example = circuit_after_success 80 waiting.db broken 500 600 [] 700 refl

abbrev int_lab : IntText
int_lab = record { to_string = λ n. b'5' ∷ []; parse = λ s. some (pos 5) }

plain_five : trim (t_tag ++ b'5' ∷ []) ≡ t_tag ++ b'5' ∷ []
unfolding trim is_whitespace
plain_five = refl

plain_k : trim (b'k' ∷ []) ≡ b'k' ∷ []
unfolding trim is_whitespace
plain_k = refl

plain_v1 : trim (v1_tag ++ b'k' ∷ []) ≡ v1_tag ++ b'k' ∷ []
unfolding trim is_whitespace
plain_v1 = refl

abbrev own : Signs int_lab toy [] (pos 5) []
own = record {
  tag = b'k' ∷ [];
  parses = refl;
  digits = refl;
  plain = plain_five;
  signs = refl;
  hex = refl;
  hex_digits = refl;
  hex_plain = plain_k;
  part_plain = plain_v1;
}

verify_webhook-sign_webhook_example :
    (sign_webhook int_lab toy [] (pos 5) [] ≡ ok (header_of int_lab toy [] (pos 5) [] own))
    × (IsWithin 7 (pos 5) 300
        → verify_webhook int_lab toy [] (header_of int_lab toy [] (pos 5) [] own) [] (seconds 7) 300
          ≡ ok tt)
    × (¬ IsWithin 7 (pos 5) 300
        → verify_webhook int_lab toy [] (header_of int_lab toy [] (pos 5) [] own) [] (seconds 7) 300
          ≡ err expired)
verify_webhook-sign_webhook_example =
    verify_webhook-sign_webhook int_lab toy [] (pos 5) [] own (seconds 7) 300 tt

-- A cipher that writes a tag in front.
abbrev pub box : Cipher
box = record {
  base64_encode = λ s. s;
  base64_decode = λ s. some s;
  accepts = λ key. true;
  seal = λ key nonce text. some (1 ∷ text);
  unseal = λ key nonce sealed. some (drop 1 sealed);
  is_utf8 = λ s. true;
}

abbrev pub twelve : List ℕ
twelve = 0 ∷ 1 ∷ 2 ∷ 3 ∷ 4 ∷ 5 ∷ 6 ∷ 7 ∷ 8 ∷ 9 ∷ 10 ∷ 11 ∷ []

two : 0 < length {A = ℕ} (1 ∷ b's' ∷ [])
two = omega arith

abbrev own_box : Seals box [] twelve (b's' ∷ [])
own_box = record {
  sealed = 1 ∷ b's' ∷ [];
  accepted = refl;
  drawn = refl;
  seals = refl;
  tagged = two;
  unseals = refl;
  base64 = refl;
  utf8 = refl;
}

not_sealed : is_encrypted_envelope (b's' ∷ []) ≡ false
unfolding is_encrypted_envelope starts_with strip_prefix
not_sealed = refl

open_secret_value-seal_if_plaintext_example :
    (seal_if_plaintext box twelve [] (b's' ∷ [])
      ≡ ok (envelope_of box [] twelve (b's' ∷ []) own_box))
    × (open_secret_value box [] (envelope_of box [] twelve (b's' ∷ []) own_box) ≡ ok (b's' ∷ []))
    × ((other : List ℕ)
        → seal_if_plaintext box other [] (envelope_of box [] twelve (b's' ∷ []) own_box)
          ≡ ok (envelope_of box [] twelve (b's' ∷ []) own_box))
open_secret_value-seal_if_plaintext_example =
    open_secret_value-seal_if_plaintext box [] twelve (b's' ∷ []) own_box not_sealed

abbrev pub station : WorkerEnv
station = record {
  config = record {
    webhook_timeout_ms = 5000;
    webhook_url_allowlist = [];
    webhook_signing_secret = [];
    encryption_master_key = [];
    webhook_max_attempts = 8;
  };
  settings = record { webhook_timeout_ms = λ json. none; webhook_url_allowlist = λ json. none };
  lib = toy;
  cipher = box;
  int = int_lab;
  net = λ w. lab;
  to_vec = λ payload. ok [];
  post = λ w request. ok 500;
  print = λ e. "http 500";
  jitter = λ w. 0;
}

abbrev parcel : WebhookDelivery
parcel = record {
  id = 90;
  webhook_endpoint_id = 80;
  event_id = 301;
  payload_version = "2026-08-18";
  status = pending;
  attempt_count = 0;
  next_retry_at = none;
  response_code = none;
  last_error_safe = none;
  created_at = 0;
  updated_at = 0;
}

-- The parcel after one answer of status 500.
abbrev bounced : WebhookDelivery
bounced = record parcel {
  status = retrying;
  attempt_count = 1;
  next_retry_at = some (502 + seconds 2);
  response_code = some 500;
  last_error_safe = some "http 500";
  updated_at = 500;
}

one_round : Rounds station parcel 1 bounced
unfolding conclude reschedule failed retry_at exponential_backoff record_webhook_endpoint_result
    backoff_base
one_round = Rounds.round Rounds.start (record {
  endpoint = 80;
  response = err (http 500);
  before = waiting;
  after = (conclude station parcel 80 (err (http 500)) waiting).1;
  opened = refl;
  ran = refl;
})

Rounds-bound_example : (1 ≤ 8) × IsCounted station 1 bounced
Rounds-bound_example =
    Rounds-bound station (omega arith) parcel 1 bounced refl (omega arith) one_round

send_one_guard_example :
    IsSafeUrl lab (b'u' ∷ []) []
    ⊎ ((e : UrlError) × ((post : World → WebhookRequest → Result String ℕ)
          → send_one (record station { post = post }) broken none waiting
            ≡ (ok (err (ssrf e)), waiting)))
unfolding get_tenant_settings_json policy_of
send_one_guard_example = send_one_guard station broken none waiting none lab-ReadsNets refl
