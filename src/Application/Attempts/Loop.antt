-- ===== src/Application/Attempts/Loop.antt =====
-- How far the loop over the candidates goes (crates/openpay-application/src/authorize.rs).
use vega_trix.Base.{
  ℕ, suc, ◌≡◌, sym, ◌⊎◌, inl, inr, ◌≤◌, refl, ◌∙◌, Bool, true, false, Option, some, none, List, [],
  ◌∷◌, ◌++◌, Result, ok, err, length, take, arith, any, if◌then◌else◌,
}
use vega_trix.Base.{String}
use vega_trix.Domain.Status.{PaymentStatus, AttemptStatus, attempt_eq, into_payment_status}
use vega_trix.Domain.Routing.{FallbackSpec}
use vega_trix.Domain.Payment.{PaymentRequest, PaymentAttempt}
use vega_trix.Application.Ports.{ApplicationError}
use vega_trix.Application.Exec.{World, Exec, continue}
use vega_trix.Base.Machine.{Uuid, Instant}
use vega_trix.Persistence.Db.{Db}
use vega_trix.Persistence.Catalog.{connector_id_by_key}
use vega_trix.Persistence.Payments.{insert_attempt, same_reference}
use vega_trix.Application.Attempts.{
  call, attempt_input, answered, new_attempt, goes_on, Env, Progress, proceed, try_connector,
  attempt_loop,
}
use vega_trix.Connectors.Api.{CreatePaymentAttemptOutput, PaymentConnector}

-- A chain that succeeds has succeeded at its first step.
continue-ok :
    {A B : Type 0} (r : Result ApplicationError A) (f : A → Exec B) (w : World) {b : B}
    → (continue r f w).0 ≡ ok b
    → (a : A) × (r ≡ ok a) × ((f a w).0 ≡ ok b)
continue-ok (ok a) f w h = (a, refl, h)
continue-ok (err e) f w h = cc

proceed_tried :
    (later : Progress → Exec Progress) (go : Bool) (next r : Progress) (w : World)
    → (proceed later go next w).0 ≡ ok r
    → ((go ≡ false) × (next ≡ r)) ⊎ ((later next w).0 ≡ ok r)
proceed_tried later true next r w h = inr h
proceed_tried later false next r w h = inl (refl, cc h)

append_cons : (xs ys : List String) (key : String) → (xs ++ key ∷ []) ++ ys ≡ xs ++ key ∷ ys
append_cons [] ys key = refl
append_cons (x ∷ xs) ys key = rw (append_cons xs ys key) refl

append_nil : (xs : List String) → xs ++ [] ≡ xs
append_nil [] = refl
append_nil (x ∷ xs) = rw (append_nil xs) refl

ended : (acc r : Progress) → acc ≡ r → r.tried_keys ≡ acc.tried_keys
ended acc r e = rw e refl

insert_fresh :
    (a : PaymentAttempt) (db : Db)
    → any (same_reference a) db.attempts ≡ false
    → insert_attempt a db ≡ (ok a, record db { attempts = db.attempts ++ a ∷ [] })
unfolding insert_attempt
insert_fresh a db fresh = rw fresh refl

-- What a connector's answer at a time says of the payment, and when it was settled.
pub data IsReadAs (t : Instant) : AttemptStatus → PaymentStatus → Option Instant → Type 0 where
  created : IsReadAs t AttemptStatus.created PaymentStatus.pending none
  action : IsReadAs t AttemptStatus.requires_action PaymentStatus.requires_action none
  running : IsReadAs t AttemptStatus.processing PaymentStatus.processing none
  held : IsReadAs t AttemptStatus.authorized PaymentStatus.authorized none
  paid : IsReadAs t AttemptStatus.settled PaymentStatus.settled (some t)
  refused : IsReadAs t AttemptStatus.failed PaymentStatus.failed none
  withdrawn : IsReadAs t AttemptStatus.cancelled PaymentStatus.cancelled none
  late : IsReadAs t AttemptStatus.expired PaymentStatus.expired none
  unclear : IsReadAs t AttemptStatus.ambiguous PaymentStatus.processing none

-- The attempt that an answer leaves in the tables.
abbrev pub attempt_row_of :
    Uuid
    → Uuid
    → PaymentConnector
    → PaymentRequest
    → Instant
    → CreatePaymentAttemptOutput
    → Option Instant
    → PaymentAttempt
attempt_row_of id connector_id c p t out settled_at = record {
  id = id;
  tenant_id = p.tenant_id;
  payment_request_id = p.id;
  connector_id = connector_id;
  connector_key = c.key;
  rail_type = out.rail_type;
  provider_reference = some out.provider_reference;
  status = out.status;
  failure_code = none;
  failure_message_safe = none;
  amount_minor = p.amount_minor;
  currency = p.currency;
  requested_at = t;
  authorized_at = none;
  settled_at = settled_at;
  created_at = t;
  updated_at = t;
}

read_status :
    {t : Instant} {a : AttemptStatus} {s : PaymentStatus} {settled_at : Option Instant}
    → IsReadAs t a s settled_at
    → (if attempt_eq a AttemptStatus.requires_action
        then PaymentStatus.requires_action
        else into_payment_status a)
      ≡ s
unfolding into_payment_status attempt_eq
read_status created = refl
read_status action = refl
read_status running = refl
read_status held = refl
read_status paid = refl
read_status refused = refl
read_status withdrawn = refl
read_status late = refl
read_status unclear = refl

read_settled :
    {t : Instant} {a : AttemptStatus} {s : PaymentStatus} {settled_at : Option Instant}
    → IsReadAs t a s settled_at
    → (if attempt_eq a AttemptStatus.settled then some t else none) ≡ settled_at
unfolding attempt_eq
read_settled created = refl
read_settled action = refl
read_settled running = refl
read_settled held = refl
read_settled paid = refl
read_settled refused = refl
read_settled withdrawn = refl
read_settled late = refl
read_settled unclear = refl

answered_row :
    (env : Env) (id connector_id : Uuid) (c : PaymentConnector) (p : PaymentRequest) (t : Instant)
    (out : CreatePaymentAttemptOutput) {s : PaymentStatus} {settled_at : Option Instant}
    → IsReadAs t out.status s settled_at
    → answered env p t (new_attempt id connector_id c.key p t) (ok out)
      ≡ (attempt_row_of id connector_id c p t out settled_at, (s, none))
unfolding answered new_attempt
answered_row env id connector_id c p t out read = rw (read_status read, read_settled read) refl

module _ (env : Env) (spec : FallbackSpec) (p : PaymentRequest) (scenario : Option String) where
  -- When the loop comes to its end, the connectors it tried are a first part of the candidates, in
  -- their order and each once, and at most as many as there are.
  attempt_loop_prefix :
      (keys : List String) (index : ℕ) (acc r : Progress) (w : World)
      → (attempt_loop env spec p scenario keys index acc w).0 ≡ ok r
      → (n : ℕ) × (n ≤ length keys) × (r.tried_keys ≡ acc.tried_keys ++ take n keys)
  unfolding attempt_loop
  attempt_loop_prefix [] index acc r w h =
      (0, ground arith, ended acc r (cc h) ∙ sym (append_nil acc.tried_keys))
  attempt_loop_prefix (key ∷ keys) index acc r w h =
      let (round, _, rest) =
        continue-ok (try_connector env spec p scenario (env.connectors key) index (length keys) w).0
          (λ round.
            proceed (attempt_loop env spec p scenario keys (suc index)) round.0 (record acc {
              last_status = round.1;
              last_key = key;
              tried_keys = acc.tried_keys ++ key ∷ [];
            }))
          (try_connector env spec p scenario (env.connectors key) index (length keys) w).1 h in
      elim (proceed_tried _ round.0 _ r _ rest) [
        | inl (_, same) ↦ (1, ground arith, ended _ r same)
        | inr later ↦
            let (n, bound, e) = attempt_loop_prefix keys (suc index) _ r _ later in
            (suc n, ground arith, e ∙ append_cons acc.tried_keys (take n keys) key)
      ]

  -- The first connector that answers without an error is the last one asked: whatever candidates are
  -- left, the loop ends with that connector's key and the payment status that its answer stands for, and
  -- the tables get exactly its attempt, with the status, the reference and the rail of the answer, and
  -- the time of the settlement if it is settled.
  pub attempt_loop_success :
      (key : String) (keys : List String) (index : ℕ) (acc : Progress) (c : PaymentConnector)
      (connector_id : Uuid) (out : CreatePaymentAttemptOutput) (w w' : World) (s : PaymentStatus)
      (settled_at : Option Instant)
      → env.connectors key ≡ some c
      → connector_id_by_key p.tenant_id c.key w.db ≡ (ok connector_id, w.db)
      → call (c.create_attempt (attempt_input p scenario c)) (record w { read = suc w.read })
        ≡ (ok out, w')
      → IsReadAs (w.clock w.read) out.status s settled_at
      → let made =
          attempt_row_of (w'.uuids w'.drawn) connector_id c p (w.clock w.read) out settled_at in
        any (same_reference made) w'.db.attempts ≡ false
        → attempt_loop env spec p scenario (key ∷ keys) index acc w ≡ (
          ok (record { last_status = s; last_key = key; tried_keys = acc.tried_keys ++ key ∷ [] }),
          record w' {
            db = record w'.db { attempts = w'.db.attempts ++ made ∷ [] };
            drawn = suc w'.drawn;
          },
        )
  unfolding attempt_loop try_connector goes_on
  attempt_loop_success key keys index acc c connector_id out w w' s settled_at found catalogued
        answer read fresh =
      rw
        (
          found,
          catalogued,
          answer,
          answered_row env (w'.uuids w'.drawn) connector_id c p (w.clock w.read) out read,
          insert_fresh
              (attempt_row_of (w'.uuids w'.drawn) connector_id c p (w.clock w.read) out settled_at)
              w'.db fresh,
        )
        refl
