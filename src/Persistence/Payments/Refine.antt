-- ===== src/Persistence/Payments/Refine.antt =====
-- The payments as a compare-and-set map, which `transition_payment` implements
-- (crates/openpay-persistence/src/store.rs).
use vega_trix.Base.{
  ◌≡◌, ◌≢◌, ◌⊎◌, inl, inr, true, Option, none, some, Result, ok, err, find, Bool-cases,
  Option-cases, Result-cases,
}
use vega_trix.Base.Machine.{Uuid, Instant}
use vega_trix.Domain.Error.{illegal_transition}
use vega_trix.Domain.Status
use vega_trix.Domain.Payment.{PaymentRequest, TransitionPaymentCommand, transition}
use vega_trix.Domain.Payment.Moves.{Allowed, moved_to, transition-Allowed, transition_inversion}
use vega_trix.Application.Ports.{
  AuditEvent, OutboxRecord, RepositoryError, not_found, version_conflict, conflict, shown,
}
use vega_trix.Persistence.Db.{Db}
use vega_trix.Persistence.Payments.{has_id, stale, transition_payment}
use vega_trix.Persistence.Payments.Rows.{IsKeyed}
use vega_trix.Persistence.Payments.Kept.{transition_payment_others, transition_payment-IsKeyed}
use vega_trix.Persistence.Payments.Transition.{
  Expects, committed, transition_payment_ok, find-committed, stale_write, refused_write,
}

-- The abstract store: the payment of a tenant under an identifier, without the order of the rows, the
-- events or the other tables.
abbrev pub View : Type 0
View = Uuid → Uuid → Option PaymentRequest

abbrev pub view : Db → View
view db tenant id = find (has_id tenant id) db.payments

module _ (command : TransitionPaymentCommand) (now : Instant) where
  -- The errors that the abstract store answers with, and when.
  pub data IsRefusal (v : View) : RepositoryError → Type 0 where
    absent : v command.tenant_id command.payment_id ≡ none → IsRefusal v not_found
    outdated :
        (p : PaymentRequest)
        → v command.tenant_id command.payment_id ≡ some p
        → stale command.expected_version p.version ≡ true
        → IsRefusal v version_conflict
    illegal :
        (p : PaymentRequest)
        → v command.tenant_id command.payment_id ≡ some p
        → Expects command p
        → ¬ Allowed p.status command.next_status
        → IsRefusal v (
            conflict (
              shown
                (illegal_transition (Status.as_str p.status) (Status.as_str command.next_status))))

  -- One atomic step: the payment that is there, at the version that is expected, takes an allowed status,
  -- and nothing else changes; or nothing changes at all.
  pub data Step (v : View) : Result RepositoryError PaymentRequest → View → Type 0 where
    set :
        (p : PaymentRequest) (v' : View)
        → v command.tenant_id command.payment_id ≡ some p
        → Expects command p
        → Allowed p.status command.next_status
        → v' command.tenant_id command.payment_id ≡ some (moved_to p command.next_status now)
        → ((t i : Uuid) → i ≢ command.payment_id → v' t i ≡ v t i)
        → Step v (ok (moved_to p command.next_status now)) v'
    refuse : {e : RepositoryError} → IsRefusal v e → Step v (err e) v

  module _ (audit : Option AuditEvent) (outbox : Option OutboxRecord) (db : Db) where
    abbrev StepOf : Result RepositoryError PaymentRequest × Db → Type 0
    StepOf (r, db') = Step (view db) r (view db')

    refine_absent :
        view db command.tenant_id command.payment_id ≡ none
        → StepOf (transition_payment command now audit outbox db)
    unfolding transition_payment
    refine_absent e = rw (e, transition_payment) (refuse (absent e))

    refine_found :
        (p : PaymentRequest)
        → IsKeyed db.payments
        → view db command.tenant_id command.payment_id ≡ some p
        → Expects command p
        → (Allowed p.status command.next_status) ⊎ (¬ Allowed p.status command.next_status)
        → StepOf (transition_payment command now audit outbox db)
    refine_found p keyed found fits (inr refused) =
        rw (refused_write command now audit outbox p db found fits refused)
          (refuse (illegal p found fits refused))
    refine_found p keyed found fits (inl allowed) =
        let written =
          transition_payment_ok command now audit outbox p db keyed found fits allowed in
        rw written (
          set p (view (committed p (moved_to p command.next_status now) audit outbox db)) found fits
            allowed
            (find-committed command.tenant_id command.payment_id p
              (moved_to p command.next_status now) audit outbox db found)
            λ t i ne. rw written at (transition_payment_others command now audit outbox db t i ne))

    decide_Allowed :
        (p : PaymentRequest)
        → (Allowed p.status command.next_status) ⊎ (¬ Allowed p.status command.next_status)
    decide_Allowed p = elim (Result-cases (transition p command.next_status now)) [
      | inl (m, made) ↦ inl (transition_inversion p m command.next_status now made).0
      | inr (e, refused) ↦
          inr λ allowed. cc (transition-Allowed p command.next_status now allowed, refused)
    ]

    -- On tables whose payments have distinct identifiers and versions of 32 bits, `transition_payment`
    -- takes exactly one step of the abstract store, whatever the command is: it sets the one payment, or
    -- refuses with the error that the abstract store names and leaves every payment as it was. The tables
    -- keep distinct identifiers and versions of 32 bits.
    pub transition_payment-Step :
        IsKeyed db.payments
        → let (r, db') = transition_payment command now audit outbox db in
          Step (view db) r (view db') × IsKeyed db'.payments
    transition_payment-Step keyed = (
      elim (Option-cases (view db command.tenant_id command.payment_id)) [
        | inl none_there ↦ refine_absent none_there
        | inr (p, found) ↦ elim (Bool-cases (stale command.expected_version p.version)) [
          | inl old ↦
              rw (stale_write command now audit outbox p db found old)
                (refuse (outdated p found old))
          | inr fits ↦ refine_found p keyed found fits (decide_Allowed p)
        ]
      ],
      transition_payment-IsKeyed command now audit outbox db keyed,
    )
