-- ===== src/Worker/Deliver/Breaker.antt =====
-- How the results of deliveries open and close the circuit of an endpoint
-- (crates/openpay-worker/src/lib.rs, crates/openpay-persistence/src/store.rs).
use vega_trix.Base.{
  ℕ, ◌+◌, ◌≤◌, ◌<◌, ◌≡◌, ◌↔◌, Bool, true, false, Option, some, List, [], ◌∷◌, map, ok, arith, find,
  length, ◌==◌, if◌then◌else◌,
}
use vega_trix.Base.Machine.{Uuid, Instant, seconds}
use vega_trix.Domain.Webhook.{WebhookEndpoint}
use vega_trix.Persistence.Db.{Db}
use vega_trix.Persistence.Webhooks.{get_endpoint, record_webhook_endpoint_result, with_result}
use vega_trix.Worker.Circuit.{CircuitState, closed, opened, half_open, webhook_circuit_state}

-- The tables after failures that were recorded at some moments, the last one first.
unfoldable pub after_failures : Uuid → List Instant → Db → Db
after_failures id [] db = db
after_failures id (t ∷ ts) db =
    (record_webhook_endpoint_result id false t (after_failures id ts db)).1

abbrev found : Uuid → List WebhookEndpoint → Option WebhookEndpoint
found id es = find (λ e. e.id == id) es

abbrev updated : Uuid → Bool → Instant → WebhookEndpoint → WebhookEndpoint
updated id success t e = if e.id == id then with_result success t e else e

found-updated :
    (id : Uuid) (success : Bool) (t : Instant) (es : List WebhookEndpoint) {e : WebhookEndpoint}
    → found id es ≡ some e
    → found id (map (updated id success t) es) ≡ some (with_result success t e)
found-updated id success t [] h = cc
found-updated id true t (x ∷ es) {e} h = ground (arith, found-updated id true t es {e = e})
found-updated id false t (x ∷ es) {e} h = ground (arith, found-updated id false t es {e = e})

-- The endpoint after those failures.
abbrev pub failed_endpoint : List Instant → WebhookEndpoint → WebhookEndpoint
failed_endpoint [] e = e
failed_endpoint (t ∷ ts) e = with_result false t (failed_endpoint ts e)

failed_endpoint-count :
    (ts : List Instant) (e : WebhookEndpoint)
    → (failed_endpoint ts e).failure_count ≡ length ts + e.failure_count
failed_endpoint-count [] e = omega arith
failed_endpoint-count (t ∷ ts) e = omega (arith, failed_endpoint-count ts e)

found-failures :
    (id : Uuid) (ts : List Instant) (db : Db) {e : WebhookEndpoint}
    → found id db.webhook_endpoints ≡ some e
    → found id (after_failures id ts db).webhook_endpoints ≡ some (failed_endpoint ts e)
unfolding after_failures record_webhook_endpoint_result
found-failures id [] db h = h
found-failures id (t ∷ ts) db {e} h =
    found-updated id false t (after_failures id ts db).webhook_endpoints
      (found-failures id ts db {e = e} h)

get_endpoint-found :
    (id : Uuid) (db : Db) (e : WebhookEndpoint)
    → ((get_endpoint id db).0 ≡ ok e) ↔ (found id db.webhook_endpoints ≡ some e)
unfolding get_endpoint
get_endpoint-found id db e = ground arith

circuit_lem :
    (count : ℕ) (t now : Instant)
    → (count < 20 → webhook_circuit_state count t now ≡ closed)
      × (20 ≤ count → now < t + seconds 60 → webhook_circuit_state count t now ≡ opened)
      × (20 ≤ count → t + seconds 60 ≤ now → webhook_circuit_state count t now ≡ half_open)
unfolding webhook_circuit_state
circuit_lem count t now = ground arith

abbrev pub state_of : Instant → WebhookEndpoint → CircuitState
state_of now e = webhook_circuit_state e.failure_count e.updated_at now

-- After a delivery that succeeded, however many failed before it, failures in a row leave the circuit of
-- an endpoint closed as long as they are fewer than twenty. From the twentieth on it is open for sixty
-- seconds after the latest failure and half-open afterwards.
pub circuit_after_success :
    (id : Uuid) (db : Db) (e : WebhookEndpoint) (t0 : Instant) (t : Instant) (ts : List Instant)
    → (now : Instant) → (get_endpoint id db).0 ≡ ok e
    → (e' : WebhookEndpoint) × ((get_endpoint id
          (after_failures id (t ∷ ts) (record_webhook_endpoint_result id true t0 db).1)).0
        ≡ ok e')
      × (length (t ∷ ts) < 20 → state_of now e' ≡ closed)
      × (20 ≤ length (t ∷ ts) → now < t + seconds 60 → state_of now e' ≡ opened)
      × (20 ≤ length (t ∷ ts) → t + seconds 60 ≤ now → state_of now e' ≡ half_open)
unfolding record_webhook_endpoint_result
circuit_after_success id db e t0 t ts now h =
    let reset = with_result true t0 e in
    let e' = failed_endpoint (t ∷ ts) reset in
    let db' = (record_webhook_endpoint_result id true t0 db).1 in
    let start = found-updated id true t0 db.webhook_endpoints ((get_endpoint-found id db e).0 h) in
    let count = failed_endpoint-count (t ∷ ts) reset in
    let (c, o, p) = circuit_lem e'.failure_count t now in
    (
      e',
      (get_endpoint-found id (after_failures id (t ∷ ts) db') e').1
          (found-failures id (t ∷ ts) db' start),
      (λ few. c (omega arith)),
      (λ many soon. o (omega arith) soon),
      (λ many late. p (omega arith) late),
    )
