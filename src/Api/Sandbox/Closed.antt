-- ===== src/Api/Sandbox/Closed.antt =====
-- What the laboratory does in production.
use native.Mathlib.Omega.{arith}
use vega_trix.Base.{◌≡◌, refl, true, List, ℕ, ok, err, ◌⊎◌, inl, inr}
use vega_trix.Application.Attempts.{Env}
use vega_trix.Application.Creation.{Issuer}
use vega_trix.Application.Exec.{World}
use vega_trix.Config.{is_production}
use vega_trix.Api.Error.{ApiError, problem, said}
use vega_trix.Api.Auth.{AuthContext, require_admin}
use vega_trix.Api.Sandbox.Creation.{LabTexts, SandboxPaymentBody, create_sandbox_payment}
use vega_trix.Api.Sandbox.{
  AppState, SandboxAuthorizeBody, sandbox_availability, require_sandbox, sandbox_authorize,
  sandbox_duplicate,
}

require_sandbox-production :
    (state : AppState)
    → is_production state.config ≡ true
    → require_sandbox state
      ≡ err (
          problem 403 "forbidden" "Sandbox lab unavailable"
            (said "Laboratorio sandbox disabilitato: APP_ENV=production"))
unfolding require_sandbox sandbox_availability
require_sandbox-production state live = rw live refl

require_admin_cases :
    (auth : AuthContext)
    → (require_admin auth ≡ ok tt)
      ⊎ (require_admin auth
          ≡ err (problem 403 "forbidden" "Forbidden" (said "admin role required")))
unfolding require_admin
require_admin_cases auth = ground arith

-- In production nobody creates, authorises or repeats a payment in the laboratory, whatever the flags
-- say: the three handlers answer one refusal, with status 403, and leave the world as it was.
pub sandbox_closed :
    (issuer : Issuer)
    → (env : Env) → (state : AppState) → (auth : AuthContext) → (payment_id : List ℕ)
    → (body : SandboxAuthorizeBody) → (texts : LabTexts) → (order : SandboxPaymentBody)
    → (w : World) → is_production state.config ≡ true
    → (e : ApiError) × (e.status ≡ 403)
      × (sandbox_authorize issuer env state auth payment_id body w ≡ (err e, w))
      × (sandbox_duplicate issuer env state auth payment_id w ≡ (err e, w))
      × (create_sandbox_payment issuer texts state auth order w ≡ (err e, w))
unfolding sandbox_authorize sandbox_duplicate create_sandbox_payment
sandbox_closed issuer env state auth payment_id body texts order w live =
    let shut = require_sandbox-production state live in
    elim (require_admin_cases auth) [
      | inl admitted ↦ (
        problem 403 "forbidden" "Sandbox lab unavailable"
            (said "Laboratorio sandbox disabilitato: APP_ENV=production"),
        refl,
        rw (admitted, shut) refl,
        rw (admitted, shut) refl,
        rw (admitted, shut) refl,
      )
      | inr refused ↦ (
        problem 403 "forbidden" "Forbidden" (said "admin role required"),
        refl,
        rw refused refl,
        rw refused refl,
        rw refused refl,
      )
    ]
