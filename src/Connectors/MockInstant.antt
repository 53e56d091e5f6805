-- ===== src/Connectors/MockInstant.antt =====
-- The mock connector (crates/connector-mock-instant/src/lib.rs). The printing of identifiers in a
-- provider reference is the uuid crate's, a parameter.
use Prim.Native.String.{String, ◌++◌ as append}
use text.Mathlib.Text.{starts_with}
use vega_trix.Base.{◌||◌, Option, some, none, [], ◌∷◌, str_eq, if◌then◌else◌}
use vega_trix.Base.Machine.{Uuid}
use vega_trix.Domain.Status.{AttemptStatus, attempt_eq, account_to_account, wallet}
use vega_trix.Connectors.Api.{
  PaymentConnector, CreatePaymentAttemptInput, CreatePaymentAttemptOutput, NormalizedAttemptStatus,
  Call, pure, fail, draw, ◌>>=◌, ◌>>◌, timeout, unavailable, declined, message,
}
use vega_trix.Connectors.Ledger.{put, get}

abbrev pub key : String
key = "mock-instant"

abbrev pub scenario_of : Option String → String
scenario_of (some s) = s
scenario_of none = "success"

unfoldable pub settled_status : String → AttemptStatus
settled_status scenario =
    if str_eq scenario "delayed" then AttemptStatus.processing else AttemptStatus.settled

module _ (print : Uuid → String) where
  -- `create_attempt`, after the scenarios that fail
  accept : String → Call CreatePaymentAttemptOutput
  unfolding settled_status put
  accept scenario = do
    id ← draw
    let reference = append "mock_" (print id)
    let status = settled_status scenario
    put key reference status
    pure (record {
      provider_reference = reference;
      status = status;
      action_url = none;
      rail_type = "MOCK_INSTANT";
    })

  time_out : Uuid → Call CreatePaymentAttemptOutput
  unfolding put
  time_out payment = do
    put key (append "timeout_" (print payment)) AttemptStatus.ambiguous
    fail timeout

  -- `create_attempt`
  unfoldable pub create_attempt : CreatePaymentAttemptInput → Call CreatePaymentAttemptOutput
  unfolding accept time_out
  create_attempt input =
      let scenario = scenario_of input.scenario in
      if str_eq scenario "unavailable"
      then fail unavailable
      else if str_eq scenario "timeout"
      then time_out input.payment_id
      else if str_eq scenario "decline"
      then fail (declined "sandbox_declined")
      else accept scenario

  finish : String → Option AttemptStatus → Call NormalizedAttemptStatus
  unfolding put
  finish reference none = fail (message "unknown reference")
  finish reference (some stored) =
      if attempt_eq stored AttemptStatus.processing || attempt_eq stored AttemptStatus.ambiguous
      then (do
        put key reference AttemptStatus.settled
        pure (record { provider_reference = reference; status = AttemptStatus.settled }))
      else pure (record { provider_reference = reference; status = stored })

  -- `fetch_attempt`
  unfoldable pub fetch_attempt : String → Call NormalizedAttemptStatus
  unfolding finish get
  fetch_attempt reference =
      if starts_with reference "timeout_"
      then pure (record { provider_reference = reference; status = AttemptStatus.settled })
      else (do stored ← get key reference; finish reference stored)

  cancel : String → Option AttemptStatus → Call AttemptStatus
  unfolding put
  cancel reference none = fail (message "unknown reference")
  cancel reference (some _) = do
    put key reference AttemptStatus.cancelled
    pure AttemptStatus.cancelled

  -- `cancel_attempt`
  unfoldable pub cancel_attempt : String → Call AttemptStatus
  unfolding cancel get
  cancel_attempt reference = do stored ← get key reference; cancel reference stored

  -- `refund_attempt`
  unfoldable pub refund_attempt : String → Call (AttemptStatus × String)
  refund_attempt reference = pure (AttemptStatus.settled, append "refund_" reference)

  -- `MockInstantConnector`
  unfoldable pub connector : PaymentConnector
  unfolding create_attempt fetch_attempt cancel_attempt refund_attempt
  connector = record {
    key = key;
    methods = account_to_account ∷ wallet ∷ [];
    create_attempt = create_attempt;
    fetch_attempt = fetch_attempt;
    cancel_attempt = cancel_attempt;
    refund_attempt = refund_attempt;
  }
