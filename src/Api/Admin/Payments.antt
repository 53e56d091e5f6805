-- ===== src/Api/Admin/Payments.antt =====
-- Payments, merchants and policies in the administration (crates/openpay-api/src/admin.rs).
pub mod Manual
use vega_trix.Base.{
  ℕ, suc, ◌+◌, String, Bool, true, false, not, Option, none, some, List, [], ◌∷◌, map, Result, ok,
  err, ok_or, map_err, fail_if, first_of, str_eq, if◌then◌else◌,
}
use vega_trix.Base.Machine.{Uuid}
use vega_trix.Domain.Routing.{RoutingPolicy, RoutingPolicyStatus}
use vega_trix.Domain.Status as Statuses
use vega_trix.Domain.Status.{PaymentStatus}
use vega_trix.Domain.Payment.{PaymentRequest, PaymentAttempt}
use vega_trix.Crypto.Qr.{pay}
use vega_trix.Connectors.Api.{display}
use vega_trix.Connectors.ManualTest.{resolve}
use vega_trix.Application.Exec.{query, now}
use vega_trix.Application.Attempts.{Env, asked}
use vega_trix.Application.Payments.{get_payment, apply_status}
use vega_trix.Application.Reconcile.{reconcile_payment}
use vega_trix.Persistence.Db.{MerchantRow}
use vega_trix.Persistence.Payments as Store
use vega_trix.Persistence.Admin.{
  PolicyChange, update_routing_policy, list_routing_policies, list_merchants, get_attempt,
}
use vega_trix.Api.Error.{ApiError, problem, said}
use vega_trix.Api.Http.{Http, pure, lift, service, ◌>>=◌, ◌>>◌}
use vega_trix.Api.Auth.{AuthContext, require_admin}
use vega_trix.Api.Admin.{AdminEnv, refused, parse_id}

abbrev policy_prefix : List ℕ
policy_prefix = b'r' ∷ b'p' ∷ b'l' ∷ []

abbrev attempt_prefix : List ℕ
attempt_prefix = b'a' ∷ b't' ∷ b't' ∷ []

-- One round of the loop of `overview`: the number of payments in the status goes up.
unfoldable pub counted : String → List (String × ℕ) → List (String × ℕ)
counted key [] = (key, 1) ∷ []
counted key ((k, n) ∷ counts) =
    let rest = counted key counts in if str_eq k key then (k, suc n) ∷ counts else (k, n) ∷ rest

unfoldable pub count_each : List PaymentRequest → List (String × ℕ) → List (String × ℕ)
unfolding counted
count_each [] counts = counts
count_each (p ∷ ps) counts = count_each ps (counted (Statuses.as_str p.status) counts)

-- The part of the answer of `overview` that is computed.
pub record Overview : Type 0 where
  pub payment_counts : List (String × ℕ)
  pub payments : List PaymentRequest
  pub merchants : List MerchantRow

abbrev parse_policy_status : Option String → Result ApiError (Option RoutingPolicyStatus)
parse_policy_status none = ok none
parse_policy_status (some raw) =
    if str_eq raw "active"
    then ok (some RoutingPolicyStatus.active)
    else if str_eq raw "disabled"
    then ok (some RoutingPolicyStatus.disabled)
    else refused "unknown routing status"

pub record RoutingPatch : Type 0 where
  pub name : Option String
  pub rules_json : Option String
  pub fallback_policy : Option String
  pub status : Option String

-- A document of a patch, if it has to be an object.
abbrev checked_object : (String → Bool) → Option String → String → Result ApiError (Unit {0})
checked_object is_object none why = ok tt
checked_object is_object (some text) why = if is_object text then ok tt else refused why

-- The status of a payment that was decided by hand, and its event.
abbrev pub decided : Bool → PaymentStatus × String
decided true = (PaymentStatus.settled, "payment.settled")
decided false = (PaymentStatus.failed, "payment.failed")

abbrev resolve_failed : String → ApiError
resolve_failed why = problem 422 "connector" "Resolve failed" (said why)

module _ (env : AdminEnv) where
  -- The payments that `overview` shows: those of the first merchant.
  unfoldable pub payments_of : Uuid → List MerchantRow → Http (List PaymentRequest)
  payments_of tenant [] = pure []
  payments_of tenant (m ∷ ms) = service (query (Store.list_by_merchant tenant m.id 100))

  -- `overview`
  unfoldable pub overview : AuthContext → Http Overview
  overview auth = do
    lift (require_admin auth)
    merchants ← service (query (list_merchants env.collate auth.tenant_id))
    payments ← payments_of auth.tenant_id merchants
    pure (record {
      payment_counts = count_each payments [];
      payments = payments;
      merchants = merchants;
    })

  -- `list_routing_policies`
  unfoldable pub list_policies : AuthContext → Http (List RoutingPolicy)
  list_policies auth = do
    lift (require_admin auth)
    service (query (list_routing_policies auth.tenant_id))

  -- `update_routing_policy`; whether a document is an object is read by serde_json
  unfoldable pub update_policy :
      (String → Bool) → AuthContext → List ℕ → RoutingPatch → Http RoutingPolicy
  update_policy is_object auth policy_id body = do
    lift (require_admin auth)
    id ← lift (parse_id env policy_prefix policy_id)
    lift (checked_object is_object body.rules_json "rules_json must be a JSON object")
    lift (checked_object is_object body.fallback_policy "fallback_policy must be a JSON object")
    status ← lift (parse_policy_status body.status)
    t ← service now
    service (
        query (
          update_routing_policy auth.tenant_id id
            (record {
              name = body.name;
              rules_json = body.rules_json;
              fallback_policy = body.fallback_policy;
              status = status;
            })
            t))

  module _ (connectors : Env) where
    -- `reconcile_payment_admin`
    unfoldable pub reconcile_payment_admin : AuthContext → List ℕ → Http PaymentRequest
    reconcile_payment_admin auth payment_id = do
      lift (require_admin auth)
      id ← lift (parse_id env pay payment_id)
      service (reconcile_payment connectors auth.tenant_id id)

  -- `resolve_manual_attempt_admin` once the attempt is found.
  unfoldable pub resolve_found : AuthContext → Bool → PaymentAttempt → Http PaymentRequest
  resolve_found auth approve attempt = do
    reference ← lift (
        ok_or attempt.provider_reference (
          problem 400 "validation" "Missing provider reference"
            (said "attempt has no provider_reference")))
    answer ← service (asked (resolve reference approve))
    lift (map_err (λ e. resolve_failed (display e)) answer)
    payment ← service (get_payment attempt.tenant_id attempt.payment_request_id)
    service (apply_status payment (decided approve).0 "admin" auth.actor_id (decided approve).1)

  -- `resolve_manual_attempt_admin`, and whether the manual connector is registered
  unfoldable pub resolve_manual_attempt : Bool → AuthContext → List ℕ → Bool → Http PaymentRequest
  resolve_manual_attempt registered auth attempt_id approve = do
    lift (require_admin auth)
    id ← lift (parse_id env attempt_prefix attempt_id)
    lift (
        fail_if (not registered) (
          problem 422 "connector" "Manual connector unavailable"
            (said "manual-test not registered")))
    attempt ← service (query (get_attempt auth.tenant_id id))
    resolve_found auth approve attempt
