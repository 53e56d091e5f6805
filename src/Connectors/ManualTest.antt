-- ===== src/Connectors/ManualTest.antt =====
-- The manual connector: an operator settles or fails each attempt
-- (crates/connector-manual-test/src/lib.rs). The printing of identifiers is a parameter.
pub mod Decisions
use Prim.Native.String.{String, ◌++◌ as append}
use vega_trix.Base.{ℕ, Bool, true, false, ◌||◌, Option, some, none, [], ◌∷◌, if◌then◌else◌}
use vega_trix.Base.Machine.{Uuid}
use vega_trix.Domain.Status.{AttemptStatus, attempt_eq, manual}
use vega_trix.Connectors.Api.{
  PaymentConnector, CreatePaymentAttemptInput, CreatePaymentAttemptOutput, NormalizedAttemptStatus,
  Call, pure, fail, draw, ◌>>=◌, ◌>>◌, message,
}
use vega_trix.Connectors.Ledger.{put, get}

abbrev pub key : String
key = "manual-test"

-- The statuses that `resolve` leaves as they are.
unfoldable pub is_final : AttemptStatus → Bool
is_final AttemptStatus.settled = true
is_final AttemptStatus.failed = true
is_final AttemptStatus.cancelled = true
is_final _ = false

decide : String → Bool → Option AttemptStatus → Call (Unit {0})
unfolding put is_final
decide reference approve none = fail (message "unknown reference")
decide reference approve (some current) =
    if is_final current
    then pure tt
    else put key reference (if approve then AttemptStatus.settled else AttemptStatus.failed)

-- `ManualTestConnector::resolve`
unfoldable pub resolve : String → Bool → Call (Unit {0})
unfolding decide get
resolve reference approve = do current ← get key reference; decide reference approve current

known : String → Option AttemptStatus → Call NormalizedAttemptStatus
known reference none = fail (message "unknown reference")
known reference (some stored) = pure (record { provider_reference = reference; status = stored })

-- `fetch_attempt`
unfoldable pub fetch_attempt : String → Call NormalizedAttemptStatus
unfolding known get
fetch_attempt reference = do stored ← get key reference; known reference stored

cancel : String → Option AttemptStatus → Call AttemptStatus
unfolding put
cancel reference none = fail (message "unknown reference")
cancel reference (some _) = do
  put key reference AttemptStatus.cancelled
  pure AttemptStatus.cancelled

-- `cancel_attempt`
unfoldable pub cancel_attempt : String → Call AttemptStatus
unfolding cancel get
cancel_attempt reference = do stored ← get key reference; cancel reference stored

-- `refund_attempt`
unfoldable pub refund_attempt : String → Call (AttemptStatus × String)
refund_attempt reference = pure (AttemptStatus.settled, append "refund_" reference)

module _ (print : Uuid → String) where
  -- `create_attempt`
  unfoldable pub create_attempt : CreatePaymentAttemptInput → Call CreatePaymentAttemptOutput
  unfolding put
  create_attempt input = do
    id ← draw
    let reference = append "man_" (print id)
    put key reference AttemptStatus.requires_action
    pure (record {
      provider_reference = reference;
      status = AttemptStatus.requires_action;
      action_url = none;
      rail_type = "MANUAL_TEST";
    })

  -- `ManualTestConnector`
  unfoldable pub connector : PaymentConnector
  unfolding create_attempt fetch_attempt cancel_attempt refund_attempt
  connector = record {
    key = key;
    methods = manual ∷ [];
    create_attempt = create_attempt;
    fetch_attempt = fetch_attempt;
    cancel_attempt = cancel_attempt;
    refund_attempt = refund_attempt;
  }
