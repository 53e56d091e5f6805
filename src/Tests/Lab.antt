-- ===== src/Tests/Lab.antt =====
-- The laboratory in production.
use vega_trix.Base.{◌≡◌, none, [], err}
use vega_trix.Api.Error.{ApiError}
use vega_trix.Api.Sandbox.{AppState, SandboxAuthorizeBody, sandbox_authorize, sandbox_duplicate}
use vega_trix.Api.Sandbox.Creation.{LabTexts, SandboxPaymentBody, create_sandbox_payment}
use vega_trix.Api.Sandbox.Closed.{sandbox_closed}
use vega_trix.Tests.Data.{noon, env}
use vega_trix.Tests.Callers.{user}
use vega_trix.Tests.Creations.{issuer}
use vega_trix.Tests.Limits.{live, defaults, live-is_production}

abbrev deployed : AppState
deployed = record { config = live; operator_snapshot = defaults }

abbrev reject_it : SandboxAuthorizeBody
reject_it = record { decision = "Reject"; scenario = none }

abbrev labels : LabTexts
labels = record { simple = λ id. "0"; metadata = λ scenario. "{}" }

abbrev espresso : SandboxPaymentBody
espresso = record {
  amount_minor = none;
  currency = none;
  description = none;
  scenario = none;
  allowed_methods = none;
  expires_in_seconds = none;
}

sandbox_closed_example :
    (e : ApiError) × (e.status ≡ 403)
    × (sandbox_authorize issuer env deployed user [] reject_it noon ≡ (err e, noon))
    × (sandbox_duplicate issuer env deployed user [] noon ≡ (err e, noon))
    × (create_sandbox_payment issuer labels deployed user espresso noon ≡ (err e, noon))
sandbox_closed_example =
    sandbox_closed issuer env deployed user [] reject_it labels espresso noon live-is_production
