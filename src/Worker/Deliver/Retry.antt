-- ===== src/Worker/Deliver/Retry.antt =====
-- Retries end (crates/openpay-worker/src/lib.rs).
use vega_trix.Base.{
  ℕ, zero, suc, ◌+◌, ◌*◌, ◌/◌, ◌^◌, ◌≤◌, ◌<◌, min, ◌≡◌, true, Result, ok, err, arith,
}
use vega_trix.Base.Machine.{Uuid, i32_add, i32_mod}
use vega_trix.Domain.Webhook.{WebhookDelivery}
use vega_trix.Application.Exec.{World}
use vega_trix.Persistence.Webhooks.{is_open, record_webhook_endpoint_result}
use vega_trix.Worker.Send.{WorkerEnv, SendError}
use vega_trix.Worker.Deliver.{
  jitter_unit, backoff_base, exponential_backoff, succeeded, failed, give_up, retry_at, reschedule,
  conclude,
}

power_small : (k : ℕ) → k ≤ 10 → 2 ^ k ≤ 1024
power_small zero h = omega arith
power_small (suc zero) h = omega arith
power_small (suc (suc zero)) h = omega arith
power_small (suc (suc (suc zero))) h = omega arith
power_small (suc (suc (suc (suc zero)))) h = omega arith
power_small (suc (suc (suc (suc (suc zero))))) h = omega arith
power_small (suc (suc (suc (suc (suc (suc zero)))))) h = omega arith
power_small (suc (suc (suc (suc (suc (suc (suc zero))))))) h = omega arith
power_small (suc (suc (suc (suc (suc (suc (suc (suc zero)))))))) h = omega arith
power_small (suc (suc (suc (suc (suc (suc (suc (suc (suc zero))))))))) h = omega arith
power_small (suc (suc (suc (suc (suc (suc (suc (suc (suc (suc zero)))))))))) h = omega arith
power_small (suc (suc (suc (suc (suc (suc (suc (suc (suc (suc (suc k))))))))))) h =
    absurd (omega arith)

cut_jitter :
    (base jitter : ℕ)
    → base ≤ 1024
    → jitter < 2 ^ 52
    → min (base * jitter_unit + jitter) (3600 * jitter_unit) / jitter_unit ≡ base
cut_jitter base jitter small below = omega arith

-- The jitter is below half a second and is cut off with the fraction: the wait after a failed attempt is
-- exactly 2^min(attempt, 10) seconds, and never reaches the cap of an hour.
pub exponential_backoff_exact :
    (attempt jitter : ℕ)
    → attempt < 2 ^ 31
    → jitter < 2 ^ 52
    → (exponential_backoff attempt jitter ≡ 2 ^ min attempt 10)
      × (exponential_backoff attempt jitter ≤ 1024)
unfolding exponential_backoff backoff_base
exponential_backoff_exact attempt jitter small below =
    let p : 2 ^ min attempt 10 ≤ 1024 = power_small (min attempt 10) (omega arith) in
    ground (arith, cut_jitter (2 ^ min attempt 10) jitter p below)

module _ (env : WorkerEnv) where
  -- One round on an open delivery, whatever the answer is.
  pub record IsRound (d d' : WebhookDelivery) : Type 0 where
    pub endpoint : Uuid
    pub response : Result SendError ℕ
    pub before : World
    pub after : World
    pub opened : is_open d.status ≡ true
    pub ran : conclude env d endpoint response before ≡ (ok d', after)

  -- The deliveries that n rounds lead to.
  pub data Rounds (d : WebhookDelivery) : ℕ → WebhookDelivery → Type 0 where
    start : Rounds d 0 d
    round : {n : ℕ} {m d' : WebhookDelivery} → Rounds d n m → IsRound m d' → Rounds d (suc n) d'

  -- An open delivery has been tried as often as it failed, and less often than is allowed.
  abbrev pub IsCounted : ℕ → WebhookDelivery → Type 0
  IsCounted n d =
      is_open d.status ≡ true → (d.attempt_count ≡ n) × (n < env.config.webhook_max_attempts)

  reschedule_lem :
      (d d' : WebhookDelivery) (w w' : World)
      → reschedule env d w ≡ (ok d', w')
      → is_open d'.status ≡ true
      → (d'.attempt_count ≡ d.attempt_count) × (d.attempt_count < env.config.webhook_max_attempts)
  unfolding reschedule give_up retry_at
  reschedule_lem d d' w w' h = ground arith

  conclude-count :
      (d d' : WebhookDelivery) (endpoint : Uuid) (response : Result SendError ℕ) (w w' : World)
      → conclude env d endpoint response w ≡ (ok d', w')
      → is_open d'.status ≡ true
      → (d'.attempt_count ≡ i32_add d.attempt_count 1)
        × (i32_add d.attempt_count 1 < env.config.webhook_max_attempts)
  unfolding conclude failed succeeded record_webhook_endpoint_result
  conclude-count d d' endpoint (ok code) w w' ran h = ground arith
  conclude-count d d' endpoint (err e) w w' ran h = reschedule_lem _ d' _ w' ran h

  module _ (few : env.config.webhook_max_attempts < i32_mod) (d : WebhookDelivery) where
    counted :
        (n : ℕ) (d' : WebhookDelivery)
        → d.attempt_count ≡ 0
        → 0 < env.config.webhook_max_attempts
        → Rounds d n d'
        → IsCounted n d'
    counted n d' fresh some_attempt start opened = (fresh, some_attempt)
    counted n d' fresh some_attempt (round {n = k} {m = m} rs r) opened =
        let (count, below) = counted k m fresh some_attempt rs r.opened in
        let (next, left) =
          conclude-count m d' r.endpoint r.response r.before r.after r.ran opened in
        ground arith

    -- A delivery that was never tried is tried at most as often as is configured, whatever the endpoint
    -- answers; as long as it is open, its attempts are the rounds and fewer than that. One attempt at
    -- least is configured, and fewer than 2^32.
    pub Rounds-bound :
        (n : ℕ) (d' : WebhookDelivery)
        → d.attempt_count ≡ 0
        → 0 < env.config.webhook_max_attempts
        → Rounds d n d'
        → (n ≤ env.config.webhook_max_attempts) × IsCounted n d'
    Rounds-bound n d' fresh some_attempt start =
        (omega arith, counted n d' fresh some_attempt start)
    Rounds-bound n d' fresh some_attempt (round {n = k} {m = m} rs r) = (
      omega (arith, counted k m fresh some_attempt rs r.opened),
      counted n d' fresh some_attempt (round rs r),
    )
