-- ===== src/Tests/Creations.antt =====
-- Payments that are created on the small database.
use vega_trix.Base.{none, some, [], ◌∷◌}
use vega_trix.Base.Int.{pos}
use vega_trix.Domain.Money.{eur}
use vega_trix.Domain.Payment.{CreatePaymentCommand}
use vega_trix.Application.Creation.{Issuer}

abbrev pub issuer : Issuer
issuer = record {
  crypto = record {
    mac = λ key message. none;
    hex_encode = λ s. s;
    hex_decode = λ s. some s;
    base64_encode = λ s. s;
    base64_decode = λ s. some s;
    json_encode = λ c. some [];
    json_decode = λ s. none;
  };
  uuid = record { simple = λ id. id ∷ []; parse_str = λ s. none };
  print = λ id. "id";
  digest = λ merchant order amount currency key. "fp-1";
  draw_svg = λ s. s;
  qr_secret = [];
  wallet_base_url = [];
}

abbrev order : CreatePaymentCommand
order = record {
  tenant_id = 7;
  merchant_id = 3;
  merchant_order_id = "order-7";
  amount_minor = record { get = pos 120 };
  currency = eur;
  description = none;
  allowed_methods = [];
  expires_in_seconds = 5;
  return_url = none;
  metadata = "{}";
  idempotency_key = "key-77";
  routing_policy_id = none;
}

abbrev again : CreatePaymentCommand
again = record order { idempotency_key = "key-1" }
