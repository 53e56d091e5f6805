-- ===== src/Api/Merchant.antt =====
-- The endpoints for merchants (crates/openpay-api/src/merchant.rs and dto.rs). JSON documents stay
-- opaque; setting the scenario in one is a parameter.
pub mod Ownership
use vega_trix.Base.{
  ℕ, suc, String, Bool, true, false, not, ◌&&◌, ◌||◌, Option, none, some, List, [], ◌∷◌, map,
  Result, ok, err, map_err, length, ltb, leb, ◌==◌, str_eq, if◌then◌else◌, ◌>>=◌ as and_then,
}
use vega_trix.Base.Int.{ℤ, pos, leb_ℤ}
use vega_trix.Base.Machine.{Uuid, Instant}
use vega_trix.Base.Text.{codes, as_bytes}
use vega_trix.Domain.Error.{DomainError, invalid_idempotency_key, invalid_merchant_order_id}
use vega_trix.Domain.Ids.{UuidText, as_prefixed, parse_prefixed, checked_key}
use vega_trix.Domain.Money.{AmountMinor, Currency, new_amount, from_str}
use vega_trix.Domain.Money as Money
use vega_trix.Domain.Status as Statuses
use vega_trix.Domain.Status.{PaymentMethod, account_to_account, card, wallet, manual}
use vega_trix.Domain.Payment.{PaymentRequest, PaymentAttempt, CreatePaymentCommand, belongs_to}
use vega_trix.Crypto.Qr.{pay, mch}
use vega_trix.Application.Ports.{ApplicationError, AuditEvent, domain}
use vega_trix.Application.Exec.{query}
use vega_trix.Application.Creation.{Issuer, CreatedPaymentView}
use vega_trix.Application.Creation as Creation
use vega_trix.Application.Payments as Payments
use vega_trix.Persistence.Payments as Store
use vega_trix.Api.Error.{
  ApiError, Detail, said, of_domain, unknown_method, problem, validation, from_application,
}
use vega_trix.Api.Http.{Http, pure, lift, service, ◌>>=◌, ◌>>◌}
use vega_trix.Api.Auth.{AuthContext}

-- The bytes of `DEMO_MERCHANT`, read as one number.
abbrev pub demo_merchant : Uuid
demo_merchant = 0x01900000000070008000000000000002

-- `merchant_from_auth`. Its refusal stands behind an `or_else` that always yields a merchant.
unfoldable pub merchant_from_auth : AuthContext → Result ApiError Uuid
merchant_from_auth auth = elim auth.merchant_id [ some id ↦ ok id | none ↦ ok demo_merchant ]

pub record CreatePaymentBody : Type 0 where
  pub merchant_order_id : String
  pub amount_minor : ℤ
  pub currency : String
  pub description : Option String
  pub allowed_methods : Option (List String)
  pub expires_in_seconds : Option ℕ
  pub return_url : Option String
  pub metadata : Option String
  pub scenario : Option String

-- The limits that the attributes of `CreatePaymentBody` set; lengths are in characters.
unfoldable pub is_valid : CreatePaymentBody → Bool
is_valid body =
    leb 1 (length (codes body.merchant_order_id))
    && leb (length (codes body.merchant_order_id)) 128
    && leb_ℤ (pos 1) body.amount_minor
    && length (codes body.currency) == 3
    && (elim body.expires_in_seconds [ none ↦ true | some s ↦ leb 30 s && leb s 3600 ])

unfoldable pub parse_method : String → Result ApiError PaymentMethod
parse_method item =
    if str_eq item "ACCOUNT_TO_ACCOUNT"
    then ok account_to_account
    else if str_eq item "CARD"
    then ok card
    else if str_eq item "WALLET"
    then ok wallet
    else if str_eq item "MANUAL"
    then ok manual
    else err (validation (unknown_method item))

unfoldable pub parse_each : List String → Result ApiError (List PaymentMethod)
parse_each [] = ok []
parse_each (item ∷ items) =
    and_then (parse_method item) λ m. and_then (parse_each items) λ ms. ok (m ∷ ms)

-- `parse_methods`
unfoldable pub parse_methods : Option (List String) → Result ApiError (List PaymentMethod)
parse_methods none = ok (account_to_account ∷ [])
parse_methods (some items) = parse_each items

-- A text that a key's constructor accepts.
abbrev pub key_of : DomainError → String → Result DomainError String
key_of e value = and_then (checked_key 128 e (as_bytes value)) λ bytes. ok value

abbrev pub or_default : {A : Type 0} → A → Option A → A
or_default a none = a
or_default a (some b) = b

abbrev pub invalid : {A : Type 0} → Result DomainError A → Result ApiError A
invalid r = map_err (λ e. validation (of_domain e)) r

abbrev applied : {A : Type 0} → Result DomainError A → Result ApiError A
applied r = map_err (λ e. from_application (domain e)) r

pub record PaymentView : Type 0 where
  pub id : List ℕ
  pub status : String
  pub amount_minor : ℤ
  pub currency : List ℕ
  pub merchant_order_id : String
  pub merchant_id : List ℕ
  pub expires_at : Instant
  pub created_at : Instant
  pub updated_at : Instant
  pub description : Option String
  pub metadata : String

module _ (issuer : Issuer) where
  -- `From<&PaymentRequest>`
  unfoldable pub view : PaymentRequest → PaymentView
  view p = record {
    id = as_prefixed issuer.uuid pay p.id;
    status = Statuses.as_str p.status;
    amount_minor = p.amount_minor.get;
    currency = Money.as_str p.currency;
    merchant_order_id = p.merchant_order_id;
    merchant_id = as_prefixed issuer.uuid mch p.merchant_id;
    expires_at = p.expires_at;
    created_at = p.created_at;
    updated_at = p.updated_at;
    description = p.description;
    metadata = p.metadata;
  }

  -- `payment_id.parse()`, also `parse_payment_id`
  unfoldable pub parse_payment_id : List ℕ → Result ApiError Uuid
  parse_payment_id raw = invalid (parse_prefixed issuer.uuid pay raw)

  -- The test of `get_payment` on what it found.
  unfoldable pub own_payment : AuthContext → PaymentRequest → Result ApiError (Unit {0})
  own_payment auth payment = elim auth.merchant_id [
    | none ↦ ok tt
    | some merchant ↦
        map_err (λ e. problem 404 "not-found" "Not found" (of_domain e))
          (belongs_to payment auth.tenant_id merchant)
  ]

  -- `get_payment`
  unfoldable pub get_payment : AuthContext → List ℕ → Http PaymentView
  get_payment auth payment_id = do
    id ← lift (parse_payment_id payment_id)
    payment ← service (Payments.get_payment auth.tenant_id id)
    lift (own_payment auth payment)
    pure (view payment)

  -- `cancel_payment`
  unfoldable pub cancel_payment : AuthContext → List ℕ → Http PaymentView
  cancel_payment auth payment_id = do
    id ← lift (parse_payment_id payment_id)
    payment ← service (Payments.cancel_payment auth.tenant_id id auth.actor_id)
    pure (view payment)

  -- `refund_payment`
  unfoldable pub refund_payment : AuthContext → List ℕ → Http PaymentView
  refund_payment auth payment_id = do
    id ← lift (parse_payment_id payment_id)
    payment ← service (Payments.refund_payment auth.tenant_id id auth.actor_id)
    pure (view payment)

  -- `list_attempts` and `list_events`: the rows whose fields the answer shows
  unfoldable pub list_attempts : AuthContext → List ℕ → Http (List PaymentAttempt)
  list_attempts auth payment_id = do
    id ← lift (parse_payment_id payment_id)
    service (query (Store.list_attempts auth.tenant_id id))

  unfoldable pub list_events : AuthContext → List ℕ → Http (List AuditEvent)
  list_events auth payment_id = do
    id ← lift (parse_payment_id payment_id)
    service (query (Store.list_for_payment auth.tenant_id id))

  -- `list_payments`
  unfoldable pub list_payments : AuthContext → Http (List PaymentView)
  list_payments auth = do
    merchant ← lift (merchant_from_auth auth)
    rows ← service (query (Store.list_by_merchant auth.tenant_id merchant 50))
    pure (map view rows)

  -- `insert` of the scenario, if there is one
  abbrev with_scenario : (String → String → String) → String → Option String → String
  with_scenario set meta none = meta
  with_scenario set meta (some scenario) = set scenario meta

  -- The command of `create_payment`, its checks in the order of the source.
  unfoldable pub command_of :
      (String → String → String)
      → AuthContext
      → Uuid
      → String
      → CreatePaymentBody
      → Result ApiError CreatePaymentCommand
  command_of set auth merchant idem body =
      and_then (applied (key_of invalid_merchant_order_id body.merchant_order_id)) λ order.
        and_then (applied (new_amount body.amount_minor)) λ amount.
          and_then (applied (from_str (codes body.currency))) λ currency.
            and_then (parse_methods body.allowed_methods) λ methods.
              and_then (invalid (key_of invalid_idempotency_key idem)) λ key. ok (record {
                tenant_id = auth.tenant_id;
                merchant_id = merchant;
                merchant_order_id = order;
                amount_minor = amount;
                currency = currency;
                description = body.description;
                allowed_methods = methods;
                expires_in_seconds = or_default 300 body.expires_in_seconds;
                return_url = body.return_url;
                metadata = with_scenario set (or_default "{}" body.metadata) body.scenario;
                idempotency_key = key;
                routing_policy_id = none;
              })

  -- `create_payment`, at the headers Idempotency-Key and x-request-id. The answer is the status and the
  -- view whose fields it shows.
  unfoldable pub create_payment :
      (String → String → String)
      → AuthContext
      → Option String
      → Option String
      → CreatePaymentBody
      → Http (ℕ × CreatedPaymentView)
  create_payment set auth key_header request_id body = do
    lift (if is_valid body then ok tt else err (validation (said "invalid body")))
    idem ← lift (elim key_header [
      | some key ↦ ok key
      | none ↦ err (validation (said "Idempotency-Key header is required"))
    ])
    merchant ← lift (merchant_from_auth auth)
    cmd ← lift (command_of set auth merchant idem body)
    created ← service (Creation.create_payment issuer cmd request_id)
    pure ((if created.replayed then 200 else 201), created)
