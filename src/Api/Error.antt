-- ===== src/Api/Error.antt =====
-- The errors of the API and the answers that the services' errors become
-- (crates/openpay-api/src/error.rs).
pub mod Mapping
use vega_trix.Base.{ℕ, String, List}
use vega_trix.Domain.Error.{DomainError, illegal_transition}
use vega_trix.Application.Ports.{
  ApplicationError, RepositoryError, Message, domain, repository, routing, forbidden, expired,
  replay, connector, not_found, conflict, idempotency_mismatch, version_conflict, infra,
}

-- The text of `detail`: a literal or another crate's text, a change of status, the display of a domain
-- error, or a message of the store.
pub data Detail : Type 0 where
  said : String → Detail
  change : (from to : String) → Detail
  of_domain : DomainError → Detail
  of_message : Message → Detail
  unknown_method : String → Detail

pub record ApiError : Type 0 where
  pub status : ℕ
  pub kind : String
  pub title : String
  pub detail : Detail

abbrev pub problem : ℕ → String → String → Detail → ApiError
problem status kind title detail = record {
  status = status;
  kind = kind;
  title = title;
  detail = detail;
}

abbrev pub validation : Detail → ApiError
validation detail = problem 400 "validation" "Validation failed" detail

abbrev pub unauthorized : String → ApiError
unauthorized why = problem 401 "auth" "Unauthorized" (said why)

abbrev connector_error : String → ApiError
connector_error why = problem 422 "connector" "Connector error" (said why)

abbrev rejected : ApiError
rejected = problem 403 "forbidden" "Forbidden" (said "token rejected")

unfoldable pub of_domain_error : DomainError → ApiError
of_domain_error (illegal_transition from to) =
    problem 409 "illegal-transition" "Illegal payment transition" (change from to)
of_domain_error other = validation (of_domain other)

unfoldable pub of_repository : RepositoryError → ApiError
of_repository not_found = problem 404 "not-found" "Not found" (said "resource not found")
of_repository idempotency_mismatch =
    problem 409 "idempotency" "Idempotency key reused with different payload"
      (said "fingerprint mismatch")
of_repository version_conflict =
    problem 409 "version-conflict" "Optimistic lock conflict" (said "retry the request")
of_repository (conflict msg) = problem 409 "conflict" "Conflict" (of_message msg)
of_repository (infra msg) =
    problem 500 "internal" "Internal error" (said "an internal error occurred")

-- `From<ApplicationError>`
unfoldable pub from_application : ApplicationError → ApiError
from_application (domain e) = of_domain_error e
from_application (repository e) = of_repository e
from_application forbidden = rejected
from_application replay = rejected
from_application expired = problem 410 "expired" "Expired" (said "token or payment expired")
from_application (routing msg) = connector_error msg
from_application (connector msg) = connector_error msg
