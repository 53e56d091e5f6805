-- ===== src/Api/Public/Once.antt =====
-- A token authorises once, and not again if that failed (crates/openpay-api/src/public.rs).
use vega_trix.Base.{
  ℕ, ◌≡◌, refl, true, none, some, List, Result, ok, err, map_err, suc, ◌≢◌, ◌++◌, ◌∙◌, ap,
}
use vega_trix.Base.Machine.{Uuid}
use vega_trix.Application.Ports.{ApplicationError}
use vega_trix.Application.Exec.{World}
use vega_trix.Application.Creation.{Issuer}
use vega_trix.Application.Claims.{VerifiedQr}
use vega_trix.Application.Qr.{verify_qr_token}
use vega_trix.Application.Qr.Replay.{verify_qr_token_once}
use vega_trix.Application.Attempts.{Env}
use vega_trix.Application.Authorize.{AuthorizeOutcome}
use vega_trix.Application.Authorize.Nonces.{authorize_payment-Keeps}
use vega_trix.Persistence.Db.{NonceRow}
use vega_trix.Api.Error.{ApiError, from_application}
use vega_trix.Api.Http.{Http, continue, lift}
use vega_trix.Api.Merchant.{parse_payment_id}
use vega_trix.Api.Public.{AuthorizeBody, verified, decision_of, public_authorize}

continue-ok :
    {A B : Type 0} (p : Result ApiError A × World) (f : A → Http B) {b : B}
    → (continue p.0 f p.1).0 ≡ ok b
    → (a : A) × (p.0 ≡ ok a) × ((f a p.1).0 ≡ ok b)
continue-ok (ok a, w) f h = (a, refl, h)
continue-ok (err e, w) f h = cc

service-ok :
    {A : Type 0} (r : Result ApplicationError A) {a : A}
    → map_err from_application r ≡ ok a
    → r ≡ ok a
service-ok (ok b) h = cc
service-ok (err e) h = cc

module _ (issuer : Issuer) (env : Env) where
  verified-ok :
      (id : Uuid) (token : List ℕ) (w : World) {v : VerifiedQr}
      → (verified issuer env id token true w).0 ≡ ok v
      → (verify_qr_token issuer.crypto issuer.uuid issuer.qr_secret token
          (w.clock w.read)
          (some id)
          none
          true
          (record w { read = suc w.read })).0
        ≡ ok v
  unfolding verified
  verified-ok id token w h = service-ok _ h

  -- After a token has passed the check, the rest of the endpoint leaves the nonces alone.
  public_authorize-Keeps :
      (id : Uuid) (raw : List ℕ) (body : AuthorizeBody) (w : World) (v : VerifiedQr)
      → parse_payment_id issuer raw ≡ ok id
      → (verified issuer env id body.token true w).0 ≡ ok v
      → (public_authorize issuer env raw body w).1.db.nonces
        ≡ (verified issuer env id body.token true w).1.db.nonces
  unfolding public_authorize
  public_authorize-Keeps id raw body w v parsed passed =
      rw (parsed, passed)
        (authorize_payment-Keeps env v.tenant_id v.payment_id (decision_of body.decision)
          body.scenario (verified issuer env id body.token true w).1)

  -- Once a token has passed the check of a call of the endpoint, it is used up, whether that call then
  -- authorised the payment or failed: on tables whose nonces are those that the call left and any others
  -- consumed since, no later call with the token succeeds, whatever its path, decision and scenario.
  pub public_authorize_once :
      (id : Uuid) (raw raw' : List ℕ) (body body' : AuthorizeBody) (w later : World)
      (more : List NonceRow) (v : VerifiedQr) (r : AuthorizeOutcome)
      → parse_payment_id issuer raw ≡ ok id
      → (verified issuer env id body.token true w).0 ≡ ok v
      → later.db.nonces ≡ (public_authorize issuer env raw body w).1.db.nonces ++ more
      → body'.token ≡ body.token
      → (public_authorize issuer env raw' body' later).0 ≢ ok r
  unfolding public_authorize verify_qr_token verified
  public_authorize_once id raw raw' body body' w later more v r parsed first kept same second =
      let (id', _, rest) = continue-ok (lift (parse_payment_id issuer raw') later) _ second in
      let (v', passed, _) = continue-ok (verified issuer env id' body'.token true later) _ rest in
      let again : (verified issuer env id' body.token true later).0 ≡ ok v' = rw same at passed in
      verify_qr_token_once issuer.crypto issuer.uuid issuer.qr_secret body.token (w.clock w.read)
        (later.clock later.read) (some id) none (some id') none (record w { read = suc w.read })
        (record later { read = suc later.read }) more v v' (verified-ok id body.token w first)
        (kept ∙ ap (λ rows. rows ++ more) (public_authorize-Keeps id raw body w v parsed first))
        (verified-ok id' body.token later again)
