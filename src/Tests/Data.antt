-- ===== src/Tests/Data.antt =====
-- A merchant's payments, the requests made for them, and a small world.
use vega_trix.Base.{true, some, none, [], ◌∷◌}
use vega_trix.Base.Int.{pos}
use vega_trix.Domain.Money.{eur}
use vega_trix.Domain.Status.{PaymentStatus, AttemptStatus, account_to_account}
use vega_trix.Domain.Payment.{PaymentRequest, TransitionPaymentCommand}
use vega_trix.Application.Ports.{AuditEvent, OutboxRecord, IdempotencyContext, change, healthy}
use vega_trix.Application.Exec.{World}
use vega_trix.Persistence.Db.{Db, IdempotencyRow, ConnectorRow, MerchantRow}
use vega_trix.Connectors.Api.{
  PaymentConnector, CreatePaymentAttemptOutput, pure, fail, not_supported,
}
use vega_trix.Application.Attempts.{Env}

abbrev pub coffee : PaymentRequest
coffee = record {
  id = 1;
  tenant_id = 7;
  merchant_id = 3;
  merchant_order_id = "order-1";
  amount_minor = record { get = pos 250 };
  currency = eur;
  status = PaymentStatus.pending;
  allowed_methods = account_to_account ∷ [];
  description = none;
  expires_at = 1000;
  return_url = none;
  metadata = "{}";
  idempotency_key = "key-1";
  routing_policy_id = none;
  version = 1;
  created_at = 10;
  updated_at = 10;
}

abbrev pub paid : PaymentRequest
paid = record coffee {
  id = 2;
  status = PaymentStatus.settled;
  idempotency_key = "key-2";
  version = 4;
}

abbrev pub running : PaymentRequest
running = record coffee {
  id = 5;
  status = PaymentStatus.processing;
  idempotency_key = "key-5";
  version = 2;
}

abbrev pub tea : PaymentRequest
tea = record coffee { id = 9; idempotency_key = "key-9" }

abbrev pub known_key : IdempotencyRow
known_key = record {
  tenant_id = 7;
  idempotency_key = "key-1";
  request_fingerprint = "fp-1";
  payment_id = 1;
  created_at = 10;
}

abbrev pub known_context : IdempotencyContext
known_context = record { tenant_id = 7; key = "key-1"; request_fingerprint = "fp-1" }

abbrev pub new_context : IdempotencyContext
new_context = record { tenant_id = 7; key = "key-9"; request_fingerprint = "fp-9" }

abbrev pub bank : ConnectorRow
bank = record {
  id = 40;
  tenant_id = none;
  snapshot = record {
    key = "bank";
    health = healthy;
    methods = account_to_account ∷ [];
    priority = pos 10;
    enabled = true;
  };
  name = "Bank";
  connector_type = "mock";
  configuration_ref = [];
  capabilities = "{}";
}

abbrev pub cafe : MerchantRow
cafe = record { id = 3; tenant_id = 7; display_name = "Cafe"; created_at = 1 }

abbrev pub shop : Db
shop = record {
  tenants = 7 ∷ [];
  merchants = cafe ∷ record cafe { id = 7 } ∷ [];
  payments = coffee ∷ paid ∷ running ∷ [];
  idempotency_keys = known_key ∷ [];
  audit_events = [];
  outbox_events = [];
  attempts = [];
  nonces = [];
  connectors = bank ∷ [];
  policies = [];
  sandbox = [];
  webhook_endpoints = [];
  webhook_deliveries = [];
  tenant_settings = [];
  api_keys = [];
  users = [];
}

abbrev pub noon : World
noon = record {
  db = shop;
  uuids = λ k. k;
  drawn = 100;
  clock = λ k. k;
  read = 500;
  nonces = λ k. [];
  rolled = 0;
}

-- The same world after the payments ran out of time.
abbrev pub night : World
night = record noon { read = 5000 }

abbrev pub cancel_command : TransitionPaymentCommand
cancel_command = record {
  tenant_id = 7;
  payment_id = 1;
  expected_version = some 1;
  next_status = PaymentStatus.cancelled;
  actor_type = "merchant";
  actor_id = "m";
  reason = none;
}

abbrev pub process_command : TransitionPaymentCommand
process_command = record cancel_command { next_status = PaymentStatus.processing }

abbrev pub audit_of : PaymentRequest → AuditEvent
audit_of p = record {
  id = 300;
  tenant_id = p.tenant_id;
  actor_type = "merchant";
  actor_id = "m";
  event_type = "payment.created";
  resource_type = "payment_request";
  resource_id = p.id;
  request_id = none;
  ip_hash = none;
  metadata_redacted = change "PENDING" "CANCELLED";
  occurred_at = 20;
}

abbrev pub outbox_of : PaymentRequest → OutboxRecord
outbox_of p = record {
  id = 301;
  tenant_id = p.tenant_id;
  aggregate_type = "payment_request";
  aggregate_id = p.id;
  event_type = "payment.created";
  payload = record {
    id = 301;
    event_type = "payment.created";
    api_version = "2026-08-18";
    created_at = 20;
    payment_id = p.id;
    merchant_order_id = p.merchant_order_id;
    status = p.status;
    amount_minor = p.amount_minor;
    currency = p.currency;
    merchant_id = p.merchant_id;
  };
  created_at = 20;
}

abbrev pub receipt : CreatePaymentAttemptOutput
receipt = record {
  provider_reference = "ref-1";
  status = AttemptStatus.settled;
  action_url = none;
  rail_type = "BANK";
}

-- A connector that settles whatever it is asked.
abbrev pub generous : PaymentConnector
generous = record {
  key = "bank";
  methods = account_to_account ∷ [];
  create_attempt = λ input. pure receipt;
  fetch_attempt = λ reference. fail not_supported;
  cancel_attempt = λ reference. fail not_supported;
  refund_attempt = λ reference. fail not_supported;
}

abbrev pub env : Env
env = record {
  connectors = λ key. some generous;
  policies = record {
    rules_array = λ text. none;
    rule_spec = λ text. none;
    rule_specs = λ text. none;
    fallback_spec = λ text. none;
  };
  scenario = λ metadata. none;
  print = λ id. "id";
}
