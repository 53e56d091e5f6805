-- ===== src/Api/Admin/Hooks/Rotation.antt =====
-- A webhook secret from the administration to the worker (crates/openpay-api/src/admin.rs,
-- crates/openpay-worker/src/lib.rs).
use vega_trix.Base.{
  ℕ, suc, ◌≡◌, refl, sym, ap, ◌∙◌, false, none, some, List, ◌++◌, ok, find, Result-cases,
  ok-injective, inl, inr,
}
use vega_trix.Base.Machine.{Uuid}
use vega_trix.Base.Text.{codes, trim}
use vega_trix.Domain.Webhook.{WebhookEndpoint}
use vega_trix.Crypto.Envelope.{decode_master_key, is_encrypted_envelope, starts_with}
use vega_trix.Domain.Ids.{strip_prefix}
use vega_trix.Crypto.Envelope.RoundTrip.{Seals, envelope_of, open_secret_value-seal_if_plaintext}
use vega_trix.Application.Exec.{World}
use vega_trix.Persistence.Admin.{EndpointChange, changed_endpoint, is_own, update_webhook_endpoint}
use vega_trix.Persistence.Admin.Updates.{update_webhook_endpoint-ok}
use vega_trix.Worker.Send.{WorkerEnv, opened_secret, resolve_webhook_secret}
use vega_trix.Api.Http.{bind-ok, pure, ◌>>=◌}
use vega_trix.Api.Auth.{AuthContext, require_admin}
use vega_trix.Api.Admin.{AdminEnv, parse_id, generate, seal_connector_ref}
use vega_trix.Api.Admin.Hooks.{ShownSecret, store_change, rotate_webhook_secret, hook_prefix}

-- What a handler's call of the store answers.
store_change-ok :
    (env : AdminEnv) (tenant id : Uuid) (c : EndpointChange) (v v' : World) (e : WebhookEndpoint)
    → store_change env tenant id c v ≡ (ok e, v')
    → (find (is_own tenant id) v'.db.webhook_endpoints ≡ some e)
      × ((old : WebhookEndpoint) × (e ≡ changed_endpoint c (v.clock v.read) old))
unfolding store_change
store_change-ok env tenant id c v v' e h =
    let run = update_webhook_endpoint tenant id c (v.clock v.read) v.db in
    elim (Result-cases run.0) [
      | inr (_, q) ↦ absurd (cc (rw q at h))
      | inl (e0, q) ↦
          let pair : run ≡ (ok e0, run.1) = λ i. (q i, run.1) in
          let (there, (old, is)) =
            update_webhook_endpoint-ok tenant id c (v.clock v.read) v.db run.1 e0 pair in
          let answer = rw q at h in
          let same : e0 ≡ e = cc (ap (λ r. r.0) answer) in
          (
            ap (λ d. find (is_own tenant id) d.db.webhook_endpoints) (sym (ap (λ r. r.1) answer))
                ∙ there
                ∙ ap some same,
            (old, sym same ∙ is),
          )
    ]

module _ (env : AdminEnv) (key : List ℕ) (w : World)
    (decoded : decode_master_key env.cipher env.encryption_master_key ≡ ok key) where
  -- The secret that is drawn.
  abbrev pub fresh_secret : List ℕ
  fresh_secret = codes "whsec_" ++ env.hex_bytes w.rolled

  module _ (c : Seals env.cipher key (env.aead_nonce (suc w.rolled)) fresh_secret) where
    -- The worker, with the master key of the server.
    abbrev pub at_server : WorkerEnv → WorkerEnv
    at_server worker = record worker {
      cipher = env.cipher;
      config = record worker.config { encryption_master_key = env.encryption_master_key };
    }

    fresh_is_plain : is_encrypted_envelope fresh_secret ≡ false
    unfolding is_encrypted_envelope starts_with strip_prefix
    fresh_is_plain = refl

    seal_connector_ref-fresh :
        seal_connector_ref env fresh_secret (record w { rolled = suc w.rolled }) ≡ (
          ok (envelope_of env.cipher key _ fresh_secret c),
          record w { rolled = suc (suc w.rolled) },
        )
    unfolding seal_connector_ref
    seal_connector_ref-fresh =
        rw
          (
            decoded,
            (open_secret_value-seal_if_plaintext env.cipher key _ fresh_secret c fresh_is_plain).0,
          )
          refl

    resolve_webhook_secret-sealed :
        (worker : WorkerEnv) (e : WebhookEndpoint)
        → e.signing_secret_ref ≡ envelope_of env.cipher key _ fresh_secret c
        → resolve_webhook_secret (at_server worker) e ≡ fresh_secret
    unfolding resolve_webhook_secret opened_secret is_encrypted_envelope starts_with strip_prefix
        decode_master_key trim
    resolve_webhook_secret-sealed worker e sealed =
        rw
          (
            sealed,
            decoded,
            (open_secret_value-seal_if_plaintext env.cipher key _ fresh_secret c fresh_is_plain).1,
          )
          refl

    -- The end of `rotate_webhook_secret`, once the new reference is sealed.
    abbrev with_reference : EndpointChange
    with_reference = record {
      url = none;
      event_types = none;
      status = none;
      signing_secret_ref = some (envelope_of env.cipher key _ fresh_secret c);
    }

    abbrev Reaches : WorkerEnv → AuthContext → Uuid → World → ShownSecret → Type 0
    Reaches worker auth id w' shown =
        (shown.secret ≡ fresh_secret)
        × (find (is_own auth.tenant_id id) w'.db.webhook_endpoints ≡ some shown.endpoint)
        × (resolve_webhook_secret (at_server worker) shown.endpoint ≡ shown.secret)

    stored-Reaches :
        (worker : WorkerEnv) (auth : AuthContext) (id : Uuid) (v w' : World) (shown : ShownSecret)
        → (store_change env auth.tenant_id id with_reference >>= λ updated.
              pure (record { endpoint = updated; secret = fresh_secret }))
            v
          ≡ (ok shown, w')
        → Reaches worker auth id w' shown
    stored-Reaches worker auth id v w' shown h =
        let (e1, v', stored, answer) =
          bind-ok (store_change env auth.tenant_id id with_reference) _ v h in
        let (there, (old, is)) =
          store_change-ok env auth.tenant_id id with_reference v v' e1 stored in
        let shows = ok-injective (ap (λ r. r.0) answer) in
        let refer = ap (λ x. x.signing_secret_ref) is in
        (
          sym (ap (λ x. x.secret) shows),
          ap (λ d. find (is_own auth.tenant_id id) d.db.webhook_endpoints)
                (sym (ap (λ r. r.1) answer))
              ∙ there
              ∙ ap (λ x. some x.endpoint) shows,
          ap (λ x. resolve_webhook_secret (at_server worker) x.endpoint) (sym shows)
              ∙ resolve_webhook_secret-sealed worker e1 refer
              ∙ ap (λ x. x.secret) shows,
        )

    -- Rotating the secret of an endpoint reaches the worker: the store then holds the endpoint with a new
    -- reference, and the secret that a worker with the same master key signs with is the one that was shown
    -- to the administrator. The cipher and Base64 must open what they sealed.
    pub rotate_webhook_secret-resolve :
        (worker : WorkerEnv) (auth : AuthContext) (endpoint_id : List ℕ) (id : Uuid) (w' : World)
        (shown : ShownSecret)
        → parse_id env hook_prefix endpoint_id ≡ ok id
        → rotate_webhook_secret env auth endpoint_id w ≡ (ok shown, w')
        → (shown.secret ≡ fresh_secret)
          × (find (is_own auth.tenant_id id) w'.db.webhook_endpoints ≡ some shown.endpoint)
          × (resolve_webhook_secret (at_server worker) shown.endpoint ≡ shown.secret)
    unfolding rotate_webhook_secret generate
    rotate_webhook_secret-resolve worker auth endpoint_id id w' shown parsed h =
        elim (Result-cases (require_admin auth)) [
          | inr (_, e) ↦ absurd (cc (rw e at h))
          | inl (_, e) ↦
              stored-Reaches worker auth id (record w { rolled = suc (suc w.rolled) }) w' shown
                (rw (e, parsed, seal_connector_ref-fresh) at h)
        ]
