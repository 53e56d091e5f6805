-- ===== src/Api/Error/Mapping.antt =====
-- Which answer a service's error becomes (crates/openpay-api/src/error.rs).
use vega_trix.Base.{◌≡◌, ◌↔◌, refl, String, arith}
use vega_trix.Application.Ports.{ApplicationError, repository, infra}
use vega_trix.Api.Error.{from_application, of_domain_error, of_repository}

abbrev pub IsInfra : ApplicationError → Type 0
IsInfra e = (msg : String) × (e ≡ repository (infra msg))

-- An error of the service is an internal error to the caller exactly when the database failed, and what
-- the database said does not reach the caller.
from_application_internal :
    (e : ApplicationError)
    → (((from_application e).status ≡ 500) ↔ IsInfra e)
      × ((msg other : String)
          → from_application (repository (infra msg)) ≡ from_application (repository (infra other)))
unfolding from_application of_domain_error of_repository
from_application_internal (repository (infra m)) =
    (((λ h. (m, refl)), λ h. refl), λ msg other. refl)
from_application_internal e =
    (((λ h. absurd (ground arith)), λ (m, h). absurd (cc h)), λ msg other. refl)
