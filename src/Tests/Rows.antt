-- ===== src/Tests/Rows.antt =====
-- Rows on concrete payments, and connectors with plain secrets.
use vega_trix.Base.Machine.{Instant}
use vega_trix.Domain.Payment.{PaymentRequest, PaymentAttempt}
use vega_trix.Application.Attempts.{new_attempt}
use vega_trix.Base.{◌-◌, ◌%◌, some, ℕ, ◌≡◌, ◌↔◌, refl, [], ◌∷◌, ok, Each}
use vega_trix.Base.Text.{codes}
use vega_trix.Application.Exec.{World}
use vega_trix.Persistence.Db.{ConnectorRow}
use vega_trix.Persistence.Sealing.{encrypt_connector_secret_refs}
use vega_trix.Persistence.Sealing.Cleared.{IsSealed, encrypt_connector_secret_refs-IsSealed}
use vega_trix.Persistence.Mapping.Rows.{
  PaymentRow, AttemptRow, read_payment, read_attempt, payment_row, attempt_row,
}
use vega_trix.Persistence.Mapping.Rows.RoundTrip.{IsStorable, IsPrice, read_payment-payment_row}
use vega_trix.Tests.Data.{coffee, noon, shop, bank}
use vega_trix.Tests.Hooks.{box, twelve}
use vega_trix.Tests.Service.{first_try}

-- Whole microseconds.
abbrev micro : Instant → Instant
micro t = t - t % 1000

-- Payments and attempts that were stamped with a finer clock.
abbrev fine : PaymentRequest
fine = record coffee { expires_at = 1700000123456; updated_at = 1700000000999 }

abbrev fine_try : PaymentAttempt
fine_try = record first_try { settled_at = some 1700000123456 }

abbrev coarse : PaymentRequest
coarse = record coffee { expires_at = 1700000123000; created_at = 0; updated_at = 1700000000000 }

abbrev coarse_try : PaymentAttempt
coarse_try = record first_try {
  requested_at = 0;
  settled_at = some 1700000123000;
  created_at = 0;
  updated_at = 0;
}

read_payment-payment_row_example :
    (IsStorable fine ↔ (read_payment (payment_row micro fine) ≡ ok coarse))
    × (IsPrice fine_try.amount_minor fine_try.currency
        ↔ (read_attempt (attempt_row micro fine_try) ≡ ok coarse_try))
    × ((row : PaymentRow) → read_payment row ≡ ok fine → IsStorable fine)
    × ((row : AttemptRow)
        → read_attempt row ≡ ok fine_try
        → IsPrice fine_try.amount_minor fine_try.currency)
unfolding new_attempt
read_payment-payment_row_example = read_payment-payment_row micro fine fine_try

-- The bank's secret stands in the clear, the other connector's is none.
abbrev exposed : World
exposed = record noon {
  db = record shop {
    connectors =
        record bank { configuration_ref = codes "env:BANK" } ∷ record bank { id = 41 } ∷ [];
  };
}

encrypt_connector_secret_refs-IsSealed_example :
    (n : ℕ) × (w' : World) × (encrypt_connector_secret_refs box (λ k. twelve) [] exposed
      ≡ (ok n, w'))
    × (Each (λ (row : ConnectorRow). IsSealed row.configuration_ref) w'.db.connectors)
    × (encrypt_connector_secret_refs box (λ k. twelve) [] w' ≡ (ok 0, w'))
encrypt_connector_secret_refs-IsSealed_example =
    encrypt_connector_secret_refs-IsSealed box (λ k. twelve) [] exposed
      (refl, λ k text. (1 ∷ text, refl))
