-- ===== src/Tests/Service.antt =====
-- The services' properties on the small world.
use vega_trix.Base.{◌≡◌, String, refl, some, none, ok, err, [], ◌∷◌, true, false}
use vega_trix.Domain.Error.{illegal_transition}
use vega_trix.Domain.Status.{PaymentStatus, AttemptStatus, as_str, webhook_event}
use vega_trix.Domain.Payment.Moves.{Allowed, moved_to}
use vega_trix.Application.Ports.{repository, conflict, shown}
use vega_trix.Application.Payments.Status.{applied}
use vega_trix.Application.Authorize.{already_terminal, approve, tried, conclude, authorize_payment}
use vega_trix.Application.Authorize.Outcome.{was_settled, authorize_payment-terminal, conclude_iff}
use vega_trix.Application.Attempts.{Progress, new_attempt, attempt_loop, call}
use vega_trix.Application.Attempts.Loop.{IsReadAs, attempt_row_of, attempt_loop_success}
use vega_trix.Application.Reconcile.{settle_with}
use vega_trix.Domain.Payment.{PaymentAttempt}
use vega_trix.Application.Reconcile.Answers.{IsPending, IsDecisive, IsRefused, settle_with_iff}
use vega_trix.Application.Routing.{some_of}
use vega_trix.Domain.Routing.{default_spec}
use vega_trix.Persistence.Catalog.{connector_id_by_key}
use vega_trix.Tests.Data.{paid, running, shop, noon, env, generous, receipt}
use vega_trix.Tests.Store.{shop-IsKeyed}

authorize_payment-terminal_example : authorize_payment env 7 2 approve none noon ≡ (
  ok (record {
    payment = paid;
    connector_key = "";
    explanation = already_terminal;
    idempotent_replay = true;
  }),
  record noon { read = 501 },
)
authorize_payment-terminal_example =
    authorize_payment-terminal env 7 2 paid noon refl was_settled approve none

abbrev ask_payer : Progress
ask_payer = record {
  last_status = PaymentStatus.requires_action;
  last_key = "manual";
  tried_keys = "manual" ∷ [];
}

conclude_iff_example :
    (Allowed PaymentStatus.processing PaymentStatus.requires_action
      → conclude running ask_payer noon ≡ (
        ok (record {
          payment = moved_to running PaymentStatus.requires_action 500;
          connector_key = "manual";
          explanation = tried ("manual" ∷ []);
          idempotent_replay = false;
        }),
        applied running PaymentStatus.requires_action "connector" "manual"
            (some_of (webhook_event PaymentStatus.requires_action) "payment.processing")
            noon,
      ))
    × (¬ Allowed PaymentStatus.processing PaymentStatus.requires_action
        → conclude running ask_payer noon ≡ (
          err (
              repository (
                conflict (
                  shown (
                    illegal_transition
                      (as_str PaymentStatus.processing)
                      (as_str PaymentStatus.requires_action))))),
          record noon { drawn = 102; read = 501 },
        ))
conclude_iff_example = conclude_iff running ask_payer noon shop-IsKeyed refl

settle_with_iff_example :
    (IsPending AttemptStatus.settled
      → settle_with running AttemptStatus.settled noon ≡ (ok running, noon))
    × (((s : PaymentStatus) (event : String)
          → IsDecisive AttemptStatus.settled s event
          → settle_with running AttemptStatus.settled noon
            ≡ (ok (moved_to running s 500), applied running s "reconciler" "worker" event noon))
        × ((name : String)
            → IsRefused AttemptStatus.settled name
            → settle_with running AttemptStatus.settled noon ≡ (
              err (repository (conflict (shown (illegal_transition "PROCESSING" name)))),
              record noon { drawn = 102; read = 501 },
            )))
settle_with_iff_example = settle_with_iff running AttemptStatus.settled noon shop-IsKeyed refl refl

attempt_loop_success_example :
    attempt_loop env default_spec running none
      ("bank" ∷ "other" ∷ [])
      0
      (record { last_status = PaymentStatus.processing; last_key = ""; tried_keys = [] })
      noon
    ≡ (
      ok (record {
        last_status = PaymentStatus.settled;
        last_key = "bank";
        tried_keys = "bank" ∷ [];
      }),
      record noon {
        db = record shop {
          attempts = attempt_row_of 100 40 generous running 500 receipt (some 500) ∷ [];
        };
        drawn = 101;
        read = 501;
      },
    )
unfolding call connector_id_by_key
attempt_loop_success_example =
    attempt_loop_success env default_spec running none "bank" ("other" ∷ []) 0
      (record { last_status = PaymentStatus.processing; last_key = ""; tried_keys = [] }) generous
      40 receipt noon (record noon { read = 501 }) PaymentStatus.settled (some 500) refl refl refl
      IsReadAs.paid refl

abbrev pub first_try : PaymentAttempt
first_try = new_attempt 1 40 "bank" running 500
