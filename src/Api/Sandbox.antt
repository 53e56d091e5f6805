-- ===== src/Api/Sandbox.antt =====
-- The sandbox laboratory (crates/openpay-api/src/sandbox.rs and `require_sandbox` of admin.rs).
pub mod Creation
pub mod Closed
use vega_trix.Base.{
  String, Bool, true, false, not, Option, none, some, List, ℕ, Result, ok, err, if◌then◌else◌,
}
use vega_trix.Application.Attempts.{Env}
use vega_trix.Application.Creation.{Issuer}
use vega_trix.Application.Authorize.{AuthorizeOutcome, authorize_payment}
use vega_trix.Application.Reconcile.{replay_connector_callback}
use vega_trix.Persistence.Settings.{OperatorSettings}
use vega_trix.Config.{AppConfig, is_production}
use vega_trix.Api.Error.{ApiError, problem, said}
use vega_trix.Api.Http.{Http, pure, lift, service, ◌>>=◌, ◌>>◌}
use vega_trix.Api.Auth.{AuthContext, require_admin}
use vega_trix.Api.Merchant.{parse_payment_id}
use vega_trix.Api.Public.{decision_of}

-- The two parts of `AppState` that the laboratory reads.
pub record AppState : Type 0 where
  pub config : AppConfig
  pub operator_snapshot : OperatorSettings

-- The document of `sandbox_availability`.
pub record Availability : Type 0 where
  pub available : Bool
  pub reason : Option String
  pub message : String

pub record SandboxAuthorizeBody : Type 0 where
  pub decision : String
  pub scenario : Option String

abbrev closed : String → String → Availability
closed why text = record { available = false; reason = some why; message = text }

-- `sandbox_availability`
unfoldable pub sandbox_availability : AppState → Availability
sandbox_availability state =
    if is_production state.config
    then closed "production" "Laboratorio sandbox disabilitato: APP_ENV=production"
    else if not state.config.features.connector_mock
    then closed "mock_env"
        "Laboratorio sandbox richiede FEATURE_CONNECTOR_MOCK=true nel .env e un riavvio"
    else if not state.operator_snapshot.feature_connector_mock
    then closed "mock_tenant" "Flag mock disattivato nelle impostazioni tenant"
    else record {
      available = true;
      reason = none;
      message = "Laboratorio sandbox attivo (connettori mock/manual, non un PSP live)";
    }

-- `require_sandbox`
unfoldable pub require_sandbox : AppState → Result ApiError (Unit {0})
require_sandbox state =
    let status : Availability = sandbox_availability state in
    if status.available
    then ok tt
    else err (problem 403 "forbidden" "Sandbox lab unavailable" (said status.message))

-- `sandbox_status`
unfoldable pub sandbox_status : AppState → AuthContext → Http Availability
sandbox_status state auth = do lift (require_admin auth); pure (sandbox_availability state)

module _ (issuer : Issuer) (env : Env) (state : AppState) where
  -- `sandbox_authorize`
  unfoldable pub sandbox_authorize :
      AuthContext → List ℕ → SandboxAuthorizeBody → Http AuthorizeOutcome
  sandbox_authorize auth payment_id body = do
    lift (require_admin auth)
    lift (require_sandbox state)
    id ← lift (parse_payment_id issuer payment_id)
    service (authorize_payment env auth.tenant_id id (decision_of body.decision) body.scenario)

  -- `sandbox_duplicate`
  unfoldable pub sandbox_duplicate : AuthContext → List ℕ → Http AuthorizeOutcome
  sandbox_duplicate auth payment_id = do
    lift (require_admin auth)
    lift (require_sandbox state)
    id ← lift (parse_payment_id issuer payment_id)
    service (replay_connector_callback env auth.tenant_id id)
