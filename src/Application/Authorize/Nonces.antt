-- ===== src/Application/Authorize/Nonces.antt =====
-- Authorising a payment neither frees nor uses a nonce, however it ends
-- (crates/openpay-application/src/authorize.rs).
use vega_trix.Base.{
  ℕ, suc, String, ◌≡◌, refl, ◌∙◌, Bool, true, false, Option, none, some, List, [], ◌∷◌, Result, ok,
  err, arith, Result-cases, Option-cases, Bool-cases, inl, inr, find, length, take,
}
use vega_trix.Base.Machine.{Uuid, Instant}
use vega_trix.Domain.Status as Statuses
use vega_trix.Domain.Status.{PaymentStatus}
use vega_trix.Domain.Payment.{
  PaymentRequest, PaymentAttempt, TransitionPaymentCommand, transition, expiry_target,
}
use vega_trix.Application.Routing.{some_of, fallback_spec_from_decision}
use vega_trix.Base.Machine.{i32_sub}
use vega_trix.Domain.Routing.{FallbackSpec}
use vega_trix.Application.Ports.{ApplicationError, AuditEvent, OutboxRecord}
use vega_trix.Application.Exec.{World, Exec, continue, pure, query, ◌>>=◌}
use vega_trix.Application.Payments.{apply_status, get_payment, expire_if_due}
use vega_trix.Application.Attempts.{Env, Progress, proceed, call, try_connector, attempt_loop}
use vega_trix.Application.Authorize.{
  PayerDecision, approve, reject, terminal, conclude, start_processing, decide_route, route_and_try,
  decide, authorize_payment, candidates, max_attempts, or_else,
}
use vega_trix.Connectors.Api.{PaymentConnector}
use vega_trix.Persistence.Db.{Db}
use vega_trix.Persistence.Catalog.{connector_id_by_key, get_active_policy, list_enabled}
use vega_trix.Persistence.Payments.{
  get_by_id, insert_attempt, transition_payment, transition_row, write_transition, insert_if,
  insert_audit, insert_outbox, has_id, or_version,
}

abbrev pub Keeps : {A : Type 0} → Exec A → Type 0
Keeps m = (w : World) → (m w).1.db.nonces ≡ w.db.nonces

-- The rest of a chain keeps what every continuation keeps.
rest-Keeps :
    {A B : Type 0} (r : Result ApplicationError A) (f : A → Exec B) (w : World)
    → ((a : A) → Keeps (f a))
    → (continue r f w).1.db.nonces ≡ w.db.nonces
rest-Keeps (ok a) f w h = h a w
rest-Keeps (err e) f w h = refl

bind-Keeps :
    {A B : Type 0} (m : Exec A) (f : A → Exec B)
    → Keeps m
    → ((a : A) → Keeps (f a))
    → Keeps (m >>= f)
bind-Keeps m f h k w = rest-Keeps (m w).0 f (m w).1 k ∙ h w

audit-Keeps : (a : Option AuditEvent) (db : Db) → (insert_if insert_audit a db).nonces ≡ db.nonces
unfolding insert_audit
audit-Keeps none db = refl
audit-Keeps (some a) db = refl

outbox-Keeps :
    (o : Option OutboxRecord) (db : Db) → (insert_if insert_outbox o db).nonces ≡ db.nonces
unfolding insert_outbox
outbox-Keeps none db = refl
outbox-Keeps (some o) db = refl

write-Keeps :
    (p : PaymentRequest) (version : ℕ) (a : Option AuditEvent) (o : Option OutboxRecord) (db : Db)
    → (write_transition p version a o db).1.nonces ≡ db.nonces
unfolding write_transition
write-Keeps p version a o db = ground (arith, audit-Keeps a, outbox-Keeps o)

row-Keeps :
    (c : TransitionPaymentCommand) (t : Instant) (a : Option AuditEvent) (o : Option OutboxRecord)
    (p : PaymentRequest) (db : Db)
    → (transition_row c t a o p db).1.nonces ≡ db.nonces
unfolding transition_row
row-Keeps c t a o p db = elim (Result-cases (transition p c.next_status t)) [
  | inr (e, bad) ↦ ground (arith, bad)
  | inl (moved, good) ↦ ground (
    arith,
    good,
    write-Keeps moved (or_version c.expected_version (i32_sub moved.version 1)) a o db,
  )
]

transition-Keeps :
    (c : TransitionPaymentCommand) (t : Instant) (a : Option AuditEvent) (o : Option OutboxRecord)
    (db : Db)
    → (transition_payment c t a o db).1.nonces ≡ db.nonces
unfolding transition_payment
transition-Keeps c t a o db =
    elim (Option-cases (find (has_id c.tenant_id c.payment_id) db.payments)) [
      | inl gone ↦ rw (gone, transition_payment) refl
      | inr (p, there) ↦ rw (there, transition_payment) (row-Keeps c t a o p db)
    ]

apply_status-Keeps :
    (p : PaymentRequest) (next : PaymentStatus) (actor_type actor_id event : String)
    → Keeps (apply_status p next actor_type actor_id event)
unfolding apply_status
apply_status-Keeps p next actor_type actor_id event w = transition-Keeps _ _ _ _ w.db

get_by_id-Keeps : (tenant id : Uuid) (db : Db) → (get_by_id tenant id db).1.nonces ≡ db.nonces
unfolding get_by_id
get_by_id-Keeps tenant id db = ground arith

insert_attempt-Keeps : (a : PaymentAttempt) (db : Db) → (insert_attempt a db).1.nonces ≡ db.nonces
unfolding insert_attempt
insert_attempt-Keeps a db = ground arith

connector_id-Keeps :
    (tenant : Uuid) (key : String) (db : Db)
    → (connector_id_by_key tenant key db).1.nonces ≡ db.nonces
unfolding connector_id_by_key
connector_id-Keeps tenant key db = ground arith

expire-Keeps : (p : PaymentRequest) (next : Option PaymentStatus) → Keeps (expire_if_due p next)
unfolding expire_if_due
expire-Keeps p none w = refl
expire-Keeps p (some next) w = apply_status-Keeps p next "system" "expiry" "payment.expired" w

get_payment-Keeps : (tenant id : Uuid) → Keeps (get_payment tenant id)
unfolding get_payment
get_payment-Keeps tenant id =
    bind-Keeps (query (get_by_id tenant id)) _ (λ w. get_by_id-Keeps tenant id w.db)
      λ p v. expire-Keeps p (expiry_target p (v.clock v.read)) (record v { read = suc v.read })

start-Keeps : (p : PaymentRequest) → Keeps (start_processing p)
unfolding start_processing
start-Keeps p w = elim (Bool-cases (Statuses.eq p.status PaymentStatus.processing)) [
  | inl e ↦ rw e refl
  | inr e ↦ rw e (apply_status-Keeps p _ _ _ _ w)
]

conclude-Keeps : (p : PaymentRequest) (acc : Progress) → Keeps (conclude p acc)
unfolding conclude
conclude-Keeps p acc =
    bind-Keeps
      (apply_status p acc.last_status "connector" acc.last_key
        (some_of (Statuses.webhook_event acc.last_status) "payment.processing"))
      _ (apply_status-Keeps p acc.last_status _ _ _) (λ updated v. refl)

store-Keeps :
    {A : Type 0} (made : PaymentAttempt) (result : A)
    → Keeps (query (insert_attempt made) >>= λ stored. pure result)
store-Keeps made result =
    bind-Keeps (query (insert_attempt made)) _ (λ w. insert_attempt-Keeps made w.db)
      λ stored w. refl

module _ (env : Env) where
  try-Keeps :
      (spec : FallbackSpec) (p : PaymentRequest) (scenario : Option String)
      (c : Option PaymentConnector) (index remaining : ℕ)
      → Keeps (try_connector env spec p scenario c index remaining)
  unfolding try_connector call
  try-Keeps spec p scenario none index remaining = λ w. refl
  try-Keeps spec p scenario (some c) index remaining =
      bind-Keeps (query (connector_id_by_key p.tenant_id c.key)) _
        (λ w. connector_id-Keeps p.tenant_id c.key w.db) λ id v. store-Keeps _ _ _

  proceed-Keeps :
      (later : Progress → Exec Progress) (go : Bool) (acc : Progress)
      → ((next : Progress) → Keeps (later next))
      → Keeps (proceed later go acc)
  proceed-Keeps later true acc h w = h acc w
  proceed-Keeps later false acc h w = refl

  loop-Keeps :
      (spec : FallbackSpec) (p : PaymentRequest) (scenario : Option String) (keys : List String)
      (index : ℕ) (acc : Progress)
      → Keeps (attempt_loop env spec p scenario keys index acc)
  unfolding attempt_loop
  loop-Keeps spec p scenario [] index acc = λ w. refl
  loop-Keeps spec p scenario (key ∷ keys) index acc =
      bind-Keeps (try_connector env spec p scenario (env.connectors key) index (length keys)) _
        (try-Keeps spec p scenario (env.connectors key) index (length keys))
        λ round. proceed-Keeps _ round.0 _ (loop-Keeps spec p scenario keys (suc index))

  decide_route-Keeps : (p : PaymentRequest) → Keeps (decide_route env p)
  unfolding decide_route get_active_policy list_enabled
  decide_route-Keeps p w = refl

  route_and_try-Keeps :
      (p : PaymentRequest) (scenario : Option String) → Keeps (route_and_try env p scenario)
  unfolding route_and_try
  route_and_try-Keeps p scenario = bind-Keeps (decide_route env p) _ (decide_route-Keeps p) λ route.
      let spec = fallback_spec_from_decision route in
      bind-Keeps
        (attempt_loop env spec p (or_else scenario (env.scenario p.metadata))
          (take (max_attempts spec) (candidates route)) 0
          (record {
            last_status = PaymentStatus.processing;
            last_key = route.selected_connector_key;
            tried_keys = [];
          }))
        _ (loop-Keeps spec p _ _ 0 _) (conclude-Keeps p)

  decide-Keeps :
      (p : PaymentRequest) (decision : PayerDecision) (scenario : Option String)
      → Keeps (decide env p decision scenario)
  unfolding decide
  decide-Keeps p reject scenario =
      bind-Keeps (apply_status p PaymentStatus.failed "payer" "demo-wallet" "payment.failed") _
        (apply_status-Keeps p _ _ _ _) (λ updated v. refl)
  decide-Keeps p approve scenario =
      bind-Keeps (start_processing p) _ (start-Keeps p)
        λ processing. route_and_try-Keeps processing scenario

  pub authorize_payment-Keeps :
      (tenant id : Uuid) (decision : PayerDecision) (scenario : Option String)
      → Keeps (authorize_payment env tenant id decision scenario)
  unfolding authorize_payment
  authorize_payment-Keeps tenant id decision scenario =
      bind-Keeps (get_payment tenant id) _ (get_payment-Keeps tenant id) λ p v.
        elim (Bool-cases (terminal p.status)) [
          | inl e ↦ rw e refl
          | inr e ↦ rw e (decide-Keeps p decision scenario v)
        ]
