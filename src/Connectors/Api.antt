-- ===== src/Connectors/Api.antt =====
-- The interface of a connector (crates/openpay-connectors/src/lib.rs). A connector sees the attempt
-- ledger and the source of UUIDs, and no other table.
use Prim.Native.String.{String, ◌++◌ as append}
use vega_trix.Base.{ℕ, suc, Bool, true, false, Option, List, Result, ok, err}
use vega_trix.Base.Machine.{Uuid}
use vega_trix.Domain.Money.{AmountMinor, Currency}
use vega_trix.Domain.Status.{AttemptStatus, PaymentMethod}
use vega_trix.Persistence.Db.{SandboxRow}

pub data ConnectorError : Type 0 where
  unavailable timeout ambiguous not_supported : ConnectorError
  declined : String → ConnectorError
  message : String → ConnectorError

-- `ConnectorError::failure_code`
unfoldable pub failure_code : ConnectorError → String
failure_code unavailable = "CONNECTOR_UNAVAILABLE"
failure_code timeout = "TIMEOUT"
failure_code (declined _) = "PAYER_DECLINED"
failure_code ambiguous = "AMBIGUOUS"
failure_code not_supported = "NOT_SUPPORTED"
failure_code (message _) = "CONNECTOR_ERROR"

-- `FailureClass` (crates/openpay-domain/src/connector.rs)
pub data FailureClass : Type 0 where
  technical payer_declined ambiguous duplicate_risk : FailureClass

-- `FailureClass::allows_fallback`
unfoldable pub allows_fallback : FailureClass → Bool
allows_fallback technical = true
allows_fallback payer_declined = false
allows_fallback FailureClass.ambiguous = false
allows_fallback duplicate_risk = false

-- `ConnectorError::class`
unfoldable pub class_of : ConnectorError → FailureClass
class_of unavailable = technical
class_of timeout = technical
class_of (message _) = technical
class_of (declined _) = payer_declined
class_of ConnectorError.ambiguous = FailureClass.ambiguous
class_of not_supported = technical

-- The display of an error.
unfoldable pub display : ConnectorError → String
display (declined m) = append "payer declined: " m
display unavailable = "connector unavailable"
display timeout = "timeout"
display ConnectorError.ambiguous = "ambiguous outcome"
display not_supported = "not supported"
display (message m) = m

-- `ConnectorError::safe_message`
unfoldable pub safe_message : ConnectorError → String
unfolding display
safe_message (declined m) = append "declined:" m
safe_message e = display e

pub record CreatePaymentAttemptInput : Type 0 where
  pub payment_id : Uuid
  pub amount_minor : AmountMinor
  pub currency : Currency
  pub method : PaymentMethod
  pub scenario : Option String
  -- the two parts of `attempt-{id}-{key}`
  pub idempotency_key : Uuid × String

pub record CreatePaymentAttemptOutput : Type 0 where
  pub provider_reference : String
  pub status : AttemptStatus
  pub action_url : Option String
  pub rail_type : String

pub record NormalizedAttemptStatus : Type 0 where
  pub provider_reference : String
  pub status : AttemptStatus

-- What a connector may read and write.
pub record Sandbox : Type 0 where
  pub rows : List SandboxRow
  pub uuids : ℕ → Uuid
  pub drawn : ℕ

abbrev pub Call : Type 0 → Type 0
Call A = Sandbox → Result ConnectorError A × Sandbox

-- `trait PaymentConnector`
pub record PaymentConnector : Type 0 where
  pub key : String
  pub methods : List PaymentMethod
  pub create_attempt : CreatePaymentAttemptInput → Call CreatePaymentAttemptOutput
  pub fetch_attempt : String → Call NormalizedAttemptStatus
  pub cancel_attempt : String → Call AttemptStatus
  pub refund_attempt : String → Call (AttemptStatus × String)

infixl 5 ◌>>=◌ ◌>>◌
abbrev pub continue : {A B : Type 0} → Result ConnectorError A → (A → Call B) → Call B
continue (ok a) f w = f a w
continue (err e) f w = (err e, w)

abbrev pub ◌>>=◌ : {A B : Type 0} → Call A → (A → Call B) → Call B
◌>>=◌ m f w = let (r, w') = m w in continue r f w'

abbrev pub ◌>>◌ : {A B : Type 0} → Call A → Call B → Call B
m >> k = m >>= λ _. k

abbrev pub pure : {A : Type 0} → A → Call A
pure a w = (ok a, w)

abbrev pub fail : {A : Type 0} → ConnectorError → Call A
fail e w = (err e, w)

-- `Uuid::now_v7`
abbrev pub draw : Call Uuid
draw w = (ok (w.uuids w.drawn), record w { drawn = suc w.drawn })
