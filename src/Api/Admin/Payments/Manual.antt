-- ===== src/Api/Admin/Payments/Manual.antt =====
-- A decision by hand, on the payment and on the connector's ledger (crates/openpay-api/src/admin.rs).
use vega_trix.Base.{
  suc, ◌≡◌, refl, String, Bool, some, ok, arith, find, eq_refl, Bool-cases, inl, inr, if◌then◌else◌,
}
use vega_trix.Domain.Status.{AttemptStatus}
use vega_trix.Domain.Payment.{PaymentRequest, PaymentAttempt}
use vega_trix.Domain.Payment.Moves.{Allowed, moved_to}
use vega_trix.Connectors.Api.{Sandbox}
use vega_trix.Connectors.Ledger.{status_of, get-put}
use vega_trix.Connectors.ManualTest.{key, is_final, resolve}
use vega_trix.Application.Exec.{World}
use vega_trix.Application.Attempts.{call}
use vega_trix.Application.Payments.Expiry.{IsDue, get_payment_live}
use vega_trix.Application.Payments.Status.{apply_status_ok, found-IsCurrent}
use vega_trix.Persistence.Payments.{has_id, insert_outbox, insert_audit}
use vega_trix.Persistence.Payments.Rows.{IsKeyed}
use vega_trix.Api.Auth.{AuthContext}
use vega_trix.Api.Admin.{AdminEnv}
use vega_trix.Api.Admin.Payments.{decided, resolve_found}

-- What the ledger of the manual connector holds after a decision.
abbrev pub kept : AttemptStatus → Bool → AttemptStatus
kept current approve =
    if is_final current
    then current
    else if approve
    then AttemptStatus.settled
    else AttemptStatus.failed

resolve-kept :
    (reference : String) (approve : Bool) (s : Sandbox) (current : AttemptStatus)
    → status_of key reference s.rows ≡ some current
    → ((resolve reference approve s).0 ≡ ok tt)
      × (status_of key reference (resolve reference approve s).1.rows ≡ some (kept current approve))
unfolding resolve
resolve-kept reference approve s current found =
    let chosen = if approve then AttemptStatus.settled else AttemptStatus.failed in
    elim (Bool-cases (is_final current)) [
      | inl e ↦ rw (found, e) (refl, found)
      | inr e ↦
          rw (found, e)
            (
              refl,
              ground (
                arith,
                get-put key key reference reference chosen s.rows,
                eq_refl key,
                eq_refl reference,
              ),
            )
    ]

-- The same through the tables.
call-kept :
    (reference : String) (approve : Bool) (w : World) (current : AttemptStatus)
    → status_of key reference w.db.sandbox ≡ some current
    → ((call (resolve reference approve) w).0 ≡ ok tt)
      × (status_of key reference (call (resolve reference approve) w).1.db.sandbox
          ≡ some (kept current approve))
unfolding call
call-kept reference approve w current found =
    resolve-kept reference approve
      (record { rows = w.db.sandbox; uuids = w.uuids; drawn = w.drawn }) current found

module _ (env : AdminEnv) (auth : AuthContext) (approve : Bool) (attempt : PaymentAttempt)
    (reference : String) (p : PaymentRequest) (current : AttemptStatus) (w : World) where
  -- A decision by hand on a known attempt of a live payment is the payment's new status, whatever the
  -- ledger of the connector says: the ledger takes the decision only while the attempt is open, and keeps
  -- an earlier decision, also the contrary one.
  pub resolve_found-kept :
      attempt.provider_reference ≡ some reference
      → status_of key reference w.db.sandbox ≡ some current
      → find (has_id attempt.tenant_id attempt.payment_request_id) w.db.payments ≡ some p
      → IsKeyed w.db.payments
      → ¬ IsDue p (w.clock w.read)
      → Allowed p.status (decided approve).0
      → ((resolve_found env auth approve attempt w).0
          ≡ ok (moved_to p (decided approve).0 (w.clock (suc w.read))))
        × (status_of key reference (resolve_found env auth approve attempt w).1.db.sandbox
            ≡ some (kept current approve))
  unfolding resolve_found call insert_outbox resolve insert_audit
  resolve_found-kept named listed found keyed live allowed =
      let v : World = (call (resolve reference approve) w).1 in
      let (done, ledger) = call-kept reference approve w current listed in
      let read = get_payment_live attempt.tenant_id attempt.payment_request_id p v found live in
      let moved =
        apply_status_ok p (decided approve).0 "admin" auth.actor_id (decided approve).1
          (record v { read = suc v.read }) keyed
          (found-IsCurrent attempt.tenant_id attempt.payment_request_id p w found) allowed in
      rw (named, done, read, moved) (refl, ledger)
