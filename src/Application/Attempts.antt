-- ===== src/Application/Attempts.antt =====
-- The loop of `authorize_payment` over the candidate connectors, with the attempt that each round stores
-- (crates/openpay-application/src/authorize.rs).
pub mod Loop
use Prim.Native.String.{String, ◌++◌ as append}
use vega_trix.Base.{
  ℕ, suc, ◌+◌, ◌%◌, Bool, true, false, Option, none, some, List, [], ◌∷◌, ◌++◌, Result, ok, err,
  length, str_eq, if◌then◌else◌,
}
use vega_trix.Base.Machine.{Uuid, Instant}
use vega_trix.Domain.Status as Statuses
use vega_trix.Domain.Status.{
  PaymentStatus, AttemptStatus, PaymentMethod, account_to_account, attempt_eq,
}
use vega_trix.Domain.Payment.{PaymentRequest, PaymentAttempt}
use vega_trix.Domain.Routing.{FallbackSpec, should_try_next}
use vega_trix.Application.Exec.{World, Exec, pure, query, now, draw, ◌>>=◌, ◌>>◌}
use vega_trix.Application.Routing.{PolicyJson}
use vega_trix.Persistence.Payments.{insert_attempt}
use vega_trix.Persistence.Catalog.{connector_id_by_key}
use vega_trix.Connectors.Api.{
  PaymentConnector, ConnectorError, CreatePaymentAttemptInput, CreatePaymentAttemptOutput, Call,
  failure_code, safe_message,
}

-- What the program is linked with: the connectors by their keys (`ConnectorLookup`), the reading of
-- policies and of the scenario in a payment's metadata, and the printing of identifiers.
pub record Env : Type 0 where
  pub connectors : String → Option PaymentConnector
  pub policies : PolicyJson
  pub scenario : String → Option String
  pub print : Uuid → String

-- A call of a connector: it sees the ledger and the source of UUIDs.
unfoldable pub call : {A : Type 0} → Call A → World → Result ConnectorError A × World
call c w =
    let (r, s) = c (record { rows = w.db.sandbox; uuids = w.uuids; drawn = w.drawn }) in
    (r, record w { db = record w.db { sandbox = s.rows }; drawn = s.drawn })

-- `u8` arithmetic on the index of the loop.
abbrev pub attempts_used : ℕ → ℕ
attempts_used index = index % 256 + 1

abbrev pub first_method : List PaymentMethod → PaymentMethod
first_method [] = account_to_account
first_method (m ∷ ms) = m

-- The call with its answer, which is not an error of the service.
abbrev pub asked : {A : Type 0} → Call A → Exec (Result ConnectorError A)
asked c w = let (r, w') = call c w in (ok r, w')

-- The attempt as it is built before the connector's answer is read.
unfoldable pub new_attempt : Uuid → Uuid → String → PaymentRequest → Instant → PaymentAttempt
new_attempt id connector_id key p t = record {
  id = id;
  tenant_id = p.tenant_id;
  payment_request_id = p.id;
  connector_id = connector_id;
  connector_key = key;
  rail_type = "UNKNOWN";
  provider_reference = none;
  status = AttemptStatus.processing;
  failure_code = none;
  failure_message_safe = none;
  amount_minor = p.amount_minor;
  currency = p.currency;
  requested_at = t;
  authorized_at = none;
  settled_at = none;
  created_at = t;
  updated_at = t;
}

abbrev pub is_timeout : ConnectorError → Bool
is_timeout e = str_eq (failure_code e) "TIMEOUT"

-- The variables of the loop over the candidates.
pub record Progress : Type 0 where
  pub last_status : PaymentStatus
  pub last_key : String
  pub tried_keys : List String

-- Whether the loop goes on after an answer; after a success it never does.
unfoldable pub goes_on : FallbackSpec → Option String → ℕ → ℕ → Bool
goes_on spec none used remaining = false
goes_on spec (some code) used remaining = should_try_next spec code used remaining

-- `continue` or `break`.
abbrev pub proceed : (Progress → Exec Progress) → Bool → Progress → Exec Progress
proceed later true acc = later acc
proceed later false acc = pure acc

-- What a connector is asked.
abbrev pub attempt_input :
    PaymentRequest → Option String → PaymentConnector → CreatePaymentAttemptInput
attempt_input p scenario c = record {
  payment_id = p.id;
  amount_minor = p.amount_minor;
  currency = p.currency;
  method = first_method p.allowed_methods;
  scenario = scenario;
  idempotency_key = (p.id, c.key);
}

module _ (env : Env) where
  -- The attempt after the answer, the payment status that it stands for, and the failure code.
  unfoldable pub answered :
      PaymentRequest
      → Instant
      → PaymentAttempt
      → Result ConnectorError CreatePaymentAttemptOutput
      → PaymentAttempt × (PaymentStatus × Option String)
  answered p t attempt (ok out) = (
    record attempt {
      provider_reference = some out.provider_reference;
      status = out.status;
      rail_type = out.rail_type;
      settled_at =
          if attempt_eq out.status AttemptStatus.settled then some t else attempt.settled_at;
    },
    (
      if attempt_eq out.status AttemptStatus.requires_action
          then PaymentStatus.requires_action
          else Statuses.into_payment_status out.status,
      none,
    ),
  )
  answered p t attempt (err e) = (
    record attempt {
      provider_reference =
          if is_timeout e
          then some (append "timeout_" (env.print p.id))
          else attempt.provider_reference;
      status = if is_timeout e then AttemptStatus.ambiguous else AttemptStatus.failed;
      failure_code = some (failure_code e);
      failure_message_safe = some (safe_message e);
    },
    (
      Statuses.into_payment_status
          (if is_timeout e then AttemptStatus.ambiguous else AttemptStatus.failed),
      some (failure_code e),
    ),
  )

  -- A round of the loop, from the lookup of the connector on: whether the loop goes on, and the new
  -- `last_status`.
  unfoldable pub try_connector :
      FallbackSpec
      → PaymentRequest
      → Option String
      → Option PaymentConnector
      → ℕ
      → ℕ
      → Exec (Bool × PaymentStatus)
  try_connector spec p scenario none index remaining = pure (
    should_try_next spec "CONNECTOR_UNAVAILABLE" (attempts_used index) remaining,
    PaymentStatus.failed,
  )
  try_connector spec p scenario (some c) index remaining = do
    connector_id ← query (connector_id_by_key p.tenant_id c.key)
    t ← now
    answer ← asked (c.create_attempt (attempt_input p scenario c))
    id ← draw
    query (insert_attempt (answered p t (new_attempt id connector_id c.key p t) answer).0)
    pure (
      goes_on spec (answered p t (new_attempt id connector_id c.key p t) answer).1.1
          (attempts_used index) remaining,
      (answered p t (new_attempt id connector_id c.key p t) answer).1.0,
    )

  -- The loop over the candidates, `index` of which are done.
  unfoldable pub attempt_loop :
      FallbackSpec → PaymentRequest → Option String → List String → ℕ → Progress → Exec Progress
  unfolding try_connector
  attempt_loop spec p scenario [] index acc = pure acc
  attempt_loop spec p scenario (key ∷ keys) index acc = do
    round ← try_connector spec p scenario (env.connectors key) index (length keys)
    proceed (attempt_loop spec p scenario keys (suc index)) round.0 (record acc {
      last_status = round.1;
      last_key = key;
      tried_keys = acc.tried_keys ++ key ∷ [];
    })
