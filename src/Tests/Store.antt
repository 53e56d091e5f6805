-- ===== src/Tests/Store.antt =====
-- The store's properties on the small database.
use vega_trix.Base.{◌≡◌, refl, inr, none, err, arith}
use vega_trix.Domain.Status.Table.{Edge}
use vega_trix.Application.Ports.{version_conflict}
use vega_trix.Persistence.Payments.{transition_payment, create_idempotent}
use vega_trix.Persistence.Payments.Rows.{IsKeyed}
use vega_trix.Persistence.Payments.Transition.{transition_payment_stale}
use vega_trix.Persistence.Payments.Idempotency.{IsUnique, create_idempotent-IsUnique}
use vega_trix.Persistence.Payments.Later.{Later}
use vega_trix.Persistence.Db.{Db}
use vega_trix.Tests.Data.{
  coffee, tea, shop, new_context, cancel_command, process_command, audit_of, outbox_of,
}

pub shop-IsKeyed : IsKeyed shop.payments
shop-IsKeyed = (refl, ground arith, (refl, ground arith, (refl, ground arith, tt)))

shop-IsUnique : IsUnique shop.payments
shop-IsUnique = (refl, (refl, (refl, tt)))

transition_payment_stale_example :
    let db' = (transition_payment cancel_command 50 none none shop).1 in
    transition_payment process_command 60 none none db' ≡ (err version_conflict, db')
transition_payment_stale_example =
    transition_payment_stale cancel_command process_command 50 60 none none none none coffee shop
      shop-IsKeyed refl refl refl refl refl (inr Edge.withdraw)

create_idempotent-IsUnique_example :
    IsUnique (create_idempotent tea new_context (audit_of tea) (outbox_of tea) shop).1.payments
create_idempotent-IsUnique_example =
    create_idempotent-IsUnique tea new_context (audit_of tea) (outbox_of tea) shop shop-IsUnique
