-- ===== src/Api/Sandbox/Creation.antt =====
-- Creating a payment in the laboratory (crates/openpay-api/src/sandbox.rs). The printing of UUIDs without
-- dashes and the JSON of the metadata are parameters.
use Prim.Native.String.{◌++◌ as append}
use vega_trix.Base.{
  ℕ, String, Option, none, some, List, [], ◌∷◌, Result, map_err, is_empty, if◌then◌else◌,
}
use vega_trix.Base.Int.{ℤ, pos, pos_part}
use vega_trix.Base.Machine.{Uuid}
use vega_trix.Domain.Error.{DomainError, invalid_merchant_order_id, invalid_idempotency_key}
use vega_trix.Domain.Money.{new_amount, from_str}
use vega_trix.Domain.Routing.{max}
use vega_trix.Domain.Status.{PaymentMethod, account_to_account}
use vega_trix.Application.Ports.{domain}
use vega_trix.Application.Exec.{query, draw}
use vega_trix.Application.Creation.{Issuer, CreatedPaymentView, create_payment}
use vega_trix.Persistence.Settings.{OperatorSettings, clamp_ℤ}
use vega_trix.Persistence.Admin.{first_merchant_id}
use vega_trix.Api.Error.{ApiError, from_application}
use vega_trix.Api.Http.{Http, lift, service, ◌>>=◌, ◌>>◌}
use vega_trix.Api.Auth.{AuthContext, require_admin}
use vega_trix.Api.Merchant.{parse_methods, key_of, or_default, invalid}
use vega_trix.Api.Sandbox.{AppState, require_sandbox}

pub record SandboxPaymentBody : Type 0 where
  pub amount_minor : Option ℤ
  pub currency : Option (List ℕ)
  pub description : Option String
  pub scenario : Option String
  pub allowed_methods : Option (List String)
  pub expires_in_seconds : Option ℕ

pub record LabTexts : Type 0 where
  -- `as_simple`
  pub simple : Uuid → String
  -- the metadata of a payment of the laboratory, at its scenario
  pub metadata : Option String → String

-- The text of the currency: the given one, or the default for none and for an empty one.
unfoldable pub currency_or : List ℕ → Option (List ℕ) → List ℕ
currency_or fallback none = fallback
currency_or fallback (some text) = if is_empty text then fallback else text

-- The methods of a payment, one at least.
abbrev pub or_account : List PaymentMethod → List PaymentMethod
or_account [] = account_to_account ∷ []
or_account (m ∷ ms) = m ∷ ms

-- The time that a payment may take: the given one, or that of the settings; half a minute at least.
unfoldable pub lifetime : OperatorSettings → Option ℕ → ℕ
lifetime op given = max (or_default (pos_part (clamp_ℤ 30 3600 op.qr_ttl_seconds)) given) 30

-- An error of the domain, through that of the application.
abbrev of_service : {A : Type 0} → Result DomainError A → Result ApiError A
of_service = map_err (λ e. from_application (domain e))

-- A default for a payment without a description.
abbrev described : Option String → Option String
described none = some "Laboratorio sandbox dashboard"
described (some text) = some text

module _ (issuer : Issuer) (texts : LabTexts) (state : AppState) where
  -- `create_sandbox_payment`
  unfoldable pub create_sandbox_payment : AuthContext → SandboxPaymentBody → Http CreatedPaymentView
  create_sandbox_payment auth body = do
    lift (require_admin auth)
    lift (require_sandbox state)
    merchant ← service (query (first_merchant_id auth.tenant_id))
    amount ← lift (of_service (new_amount (or_default (pos 1200) body.amount_minor)))
    currency ←
        lift (
          of_service
            (from_str (currency_or state.operator_snapshot.default_currency body.currency)))
    methods ← lift (parse_methods body.allowed_methods)
    idem ← service draw
    order_id ← service draw
    order ←
        lift (of_service (key_of invalid_merchant_order_id (append "LAB-" (texts.simple order_id))))
    key ← lift (invalid (key_of invalid_idempotency_key (append "sandbox-" (issuer.print idem))))
    service (
        create_payment issuer
          (record {
            tenant_id = auth.tenant_id;
            merchant_id = merchant;
            merchant_order_id = order;
            amount_minor = amount;
            currency = currency;
            description = described body.description;
            allowed_methods = or_account methods;
            expires_in_seconds = lifetime state.operator_snapshot body.expires_in_seconds;
            return_url = none;
            metadata = texts.metadata body.scenario;
            idempotency_key = key;
            routing_policy_id = none;
          })
          (some auth.actor_id))
