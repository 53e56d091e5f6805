-- ===== src/Connectors/OpenBankingStub.antt =====
-- The open-banking skeleton (crates/connector-open-banking-stub/src/lib.rs).
use vega_trix.Base.{[], ◌∷◌}
use vega_trix.Domain.Status.{account_to_account}
use vega_trix.Connectors.Api.{PaymentConnector, not_supported, fail}

-- `OpenBankingStubConnector`: every operation is refused.
abbrev pub connector : PaymentConnector
connector = record {
  key = "open-banking-stub";
  methods = account_to_account ∷ [];
  create_attempt = λ input. fail not_supported;
  fetch_attempt = λ reference. fail not_supported;
  cancel_attempt = λ reference. fail not_supported;
  refund_attempt = λ reference. fail not_supported;
}
