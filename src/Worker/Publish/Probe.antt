-- ===== src/Worker/Publish/Probe.antt =====
-- What the circuit breaker lets through in one run over the outbox (crates/openpay-worker/src/lib.rs).
use vega_trix.Base.{
  ℕ, suc, ◌+◌, ◌≤◌, ◌≡◌, refl, Bool, true, false, not, ◌||◌, ◌&&◌, List, [], ◌∷◌, ok, arith, any,
  all, select, count, count-append_one, ◌==◌, if◌then◌else◌, Bool-cases, inl, inr,
}
use vega_trix.Base.Machine.{Uuid, Instant}
use vega_trix.Domain.Webhook.{WebhookEndpoint}
use vega_trix.Application.Ports.{OutboxRecord}
use vega_trix.Application.Exec.{World, Exec}
use vega_trix.Persistence.Db.{Db}
use vega_trix.Persistence.Outbox.{fetch_pending, mark_published}
use vega_trix.Persistence.Webhooks.{is_active, list_endpoints, insert_delivery_with_payload}
use vega_trix.Worker.Circuit.{CircuitState, closed, opened, half_open}
use vega_trix.Worker.Publish.{
  subscribes, new_delivery, queue_delivery, admit, state_at, publish_to, publish_each,
  publish_record, publish_all, drain_outbox,
}

-- The deliveries of an endpoint.
abbrev pub deliveries_of : Uuid → Db → ℕ
deliveries_of k db = count (λ row. row.delivery.webhook_endpoint_id == k) db.webhook_deliveries

-- One if the endpoint was not probed yet.
abbrev pub room : Uuid → List Uuid → ℕ
room k probed = if any (λ id. id == k) probed then 0 else 1

abbrev pub is_closed : CircuitState → Bool
is_closed closed = true
is_closed opened = false
is_closed half_open = false

abbrev pub is_opened : CircuitState → Bool
is_opened closed = false
is_opened opened = true
is_opened half_open = false

queue_delivery_lem :
    (r : OutboxRecord) (e : WebhookEndpoint) (k : Uuid) (w : World)
    → (w' : World) × (queue_delivery r e w ≡ (ok tt, w'))
      × (w'.db.webhook_endpoints ≡ w.db.webhook_endpoints)
      × (deliveries_of k w'.db ≡ deliveries_of k w.db + (if e.id == k then 1 else 0))
unfolding queue_delivery insert_delivery_with_payload new_delivery
queue_delivery_lem r e k w = (
  _,
  refl,
  refl,
  count-append_one (λ row. row.delivery.webhook_endpoint_id == k) w.db.webhook_deliveries _,
)

-- The circuit of the endpoint `k` is not closed.
abbrev pub guards : Uuid → Instant → WebhookEndpoint → Bool
guards k t e = not (e.id == k) || not (is_closed (state_at t e))

-- A step that keeps the endpoints and makes a delivery to `k` only where there was room.
abbrev Kept : Uuid → List Uuid → World → List Uuid → World → Type 0
Kept k probed w probed' w' =
    (w'.db.webhook_endpoints ≡ w.db.webhook_endpoints)
    × (deliveries_of k w'.db + room k probed' ≤ deliveries_of k w.db + room k probed)

admit-room :
    (k : Uuid) (probed : List Uuid) (e : WebhookEndpoint) (s : CircuitState)
    → not (e.id == k) || not (is_closed s) ≡ true
    → (if (admit probed e s).0 then (if e.id == k then 1 else 0) else 0)
        + room k (admit probed e s).1
      ≤ room k probed
unfolding admit
admit-room k probed e opened h = ground arith
admit-room k probed e closed h = ground arith
admit-room k probed e half_open h = ground arith

-- A call that succeeds with such a step.
abbrev Keeps : Uuid → List Uuid → World → Exec (List Uuid) → Type 0
Keeps k probed w m =
    (probed' : List Uuid) × (w' : World) × (m w ≡ (ok probed', w')) × Kept k probed w probed' w'

publish_to_lem :
    (r : OutboxRecord) (t : Instant) (k : Uuid) (probed : List Uuid) (e : WebhookEndpoint)
    (w : World)
    → guards k t e ≡ true
    → Keeps k probed w (publish_to r t probed e)
unfolding publish_to
publish_to_lem r t k probed e w h =
    let room_kept = admit-room k probed e (state_at t e) h in
    elim (Bool-cases (subscribes e r)) [
      | inr s ↦ (probed, w, rw s refl, (refl, omega arith))
      | inl s ↦ elim (Bool-cases (admit probed e (state_at t e)).0) [
        | inr q ↦ (
          (admit probed e (state_at t e)).1,
          w,
          rw (s, q) refl,
          (refl, ground (arith, room_kept)),
        )
        | inl q ↦
            let (w', ran, kept, counted) = queue_delivery_lem r e k w in
            (
              (admit probed e (state_at t e)).1,
              w',
              rw (s, q, ran) refl,
              (kept, ground (arith, room_kept)),
            )
      ]
    ]

publish_each_lem :
    (r : OutboxRecord) (t : Instant) (k : Uuid) (probed : List Uuid) (es : List WebhookEndpoint)
    → (w : World) → all (guards k t) es ≡ true
    → Keeps k probed w (publish_each r t probed es)
unfolding publish_each
publish_each_lem r t k probed [] w h = (probed, w, refl, (refl, omega arith))
publish_each_lem r t k probed (e ∷ es) w h =
    let (p1, w1, ran1, (kept1, counted1)) = publish_to_lem r t k probed e w (ground arith) in
    let (p2, w2, ran2, (kept2, counted2)) = publish_each_lem r t k p1 es w1 (ground arith) in
    (p2, w2, rw ran1 ran2, (cc, omega arith))

all_select :
    {A : Type 0} (p q : A → Bool) (xs : List A) → all p xs ≡ true → all p (select q xs) ≡ true
all_select p q [] h = refl
all_select p q (x ∷ xs) h = ground (arith, all_select p q xs)

-- The rows that `list_endpoints` selects for a record.
abbrev serves : OutboxRecord → WebhookEndpoint → Bool
serves r e =
    e.tenant_id == r.tenant_id && e.merchant_id == r.payload.merchant_id && is_active e.status

abbrev endpoints_of : OutboxRecord → Db → List WebhookEndpoint
endpoints_of r db = select (serves r) db.webhook_endpoints

publish_record_lem :
    (t : Instant) (k : Uuid) (probed : List Uuid) (r : OutboxRecord) (w : World)
    → all (guards k t) w.db.webhook_endpoints ≡ true
    → Keeps k probed w (publish_record t probed r)
unfolding publish_record list_endpoints mark_published
publish_record_lem t k probed r w h =
    let (p1, w1, ran, (kept, counted)) =
      publish_each_lem r t k probed (endpoints_of r w.db) w
        (all_select (guards k t) (serves r) w.db.webhook_endpoints h) in
    (p1, (publish_record t probed r w).1, rw ran refl, rw ran (kept, counted))

publish_all_lem :
    (t : Instant) (k : Uuid) (probed : List Uuid) (rs : List OutboxRecord) (w : World)
    → all (guards k t) w.db.webhook_endpoints ≡ true
    → (w' : World) × (publish_all t probed rs w ≡ (ok tt, w'))
      × (deliveries_of k w'.db ≤ deliveries_of k w.db + room k probed)
unfolding publish_all
publish_all_lem t k probed [] w h = (w, refl, omega arith)
publish_all_lem t k probed (r ∷ rs) w h =
    let (p1, w1, ran1, (kept, counted)) = publish_record_lem t k probed r w h in
    let (w2, ran2, counted2) = publish_all_lem t k p1 rs w1 (rw kept h) in
    (w2, rw ran1 ran2, omega arith)

-- One run over the outbox succeeds, and where the circuit of an endpoint is open or half-open at its
-- start, the run stores at most one delivery for it, however many events are waiting.
pub drain_outbox_probe :
    (k : Uuid) (w : World)
    → all (guards k (w.clock w.read)) w.db.webhook_endpoints ≡ true
    → (w' : World) × (drain_outbox w ≡ (ok tt, w'))
      × (deliveries_of k w'.db ≤ suc (deliveries_of k w.db))
unfolding drain_outbox fetch_pending
drain_outbox_probe k w h =
    let (w1, ran, counted) =
      publish_all_lem (w.clock w.read) k [] _ (record w { read = suc w.read }) h in
    (w1, ran, ground arith)
