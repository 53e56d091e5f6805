-- ===== src/Persistence/Mapping/Rows/RoundTrip.antt =====
-- What is written to a row is read back (crates/openpay-persistence/src/map.rs and store.rs).
use mathlib.Core.Path.{subst}
use mathlib.Core.Option
use vega_trix.Base.Machine.{Instant}
use vega_trix.Base.{
  ℕ, ◌≡◌, ◌↔◌, refl, ap, String, true, false, ◌||◌, List, [], ◌∷◌, ok, err, all, length, is_empty,
  ltb, Result, bind-ok, Bool-cases, inl, inr, ok-injective,
}
use vega_trix.Base.Int.{ℤ, pos, leb_ℤ}
use vega_trix.Base.Text.{as_bytes, is_upper}
use vega_trix.Domain.Error.{DomainError, invalid_idempotency_key, invalid_merchant_order_id}
use vega_trix.Domain.Ids.{checked_key}
use vega_trix.Domain.Money as Money
use vega_trix.Domain.Money.{AmountMinor, Currency, new_amount, from_str}
use vega_trix.Domain.Money.Validity.{from_str-as_str, from_str_upper}
use vega_trix.Domain.Status.{PaymentMethod, account_to_account, card, wallet, manual, method_as_str}
use vega_trix.Domain.Payment.{PaymentRequest, PaymentAttempt}
use vega_trix.Persistence.Mapping.{
  parse_payment_status, parse_attempt_status, parse_method, matched, print_payment, print_attempt,
}
use vega_trix.Persistence.Mapping.Rows.{
  PaymentRow, AttemptRow, methods_json, known_methods, column, read_payment, read_attempt,
  payment_row, attempt_row,
}

-- A key of 1 to 128 bytes.
abbrev pub IsKey : String → Type 0
IsKey s = (is_empty (as_bytes s) || ltb 128 (length (as_bytes s))) ≡ false

-- A positive amount in a currency of three capital letters.
abbrev pub IsPrice : AmountMinor → Currency → Type 0
IsPrice amount c = (leb_ℤ amount.get (pos 0) ≡ false) × (all is_upper (Money.as_str c) ≡ true)

-- What the types of the domain promise of a payment.
abbrev pub IsStorable : PaymentRequest → Type 0
IsStorable p =
    IsKey p.merchant_order_id × IsKey p.idempotency_key × IsPrice p.amount_minor p.currency

known_methods-methods_json : (ms : List PaymentMethod) → known_methods (methods_json ms) ≡ ms
unfolding known_methods methods_json parse_method method_as_str matched
known_methods-methods_json [] = refl
known_methods-methods_json (account_to_account ∷ ms) =
    ap (◌∷◌ account_to_account) (known_methods-methods_json ms)
known_methods-methods_json (card ∷ ms) = ap (◌∷◌ card) (known_methods-methods_json ms)
known_methods-methods_json (wallet ∷ ms) = ap (◌∷◌ wallet) (known_methods-methods_json ms)
known_methods-methods_json (manual ∷ ms) = ap (◌∷◌ manual) (known_methods-methods_json ms)

checked_key-IsKey :
    {E : Type 0} (e : E) (s : String) → IsKey s → checked_key 128 e (as_bytes s) ≡ ok (as_bytes s)
unfolding checked_key
checked_key-IsKey e s h = rw h refl

new_amount-get : (a : AmountMinor) → leb_ℤ a.get (pos 0) ≡ false → new_amount a.get ≡ ok a
unfolding new_amount
new_amount-get a h = rw h refl

-- A payment and an attempt with their instants as the columns keep them.
abbrev pub kept_payment : (Instant → Instant) → PaymentRequest → PaymentRequest
kept_payment to_column p = record p {
  expires_at = to_column p.expires_at;
  created_at = to_column p.created_at;
  updated_at = to_column p.updated_at;
}

abbrev pub kept_attempt : (Instant → Instant) → PaymentAttempt → PaymentAttempt
kept_attempt to_column a = record a {
  requested_at = to_column a.requested_at;
  authorized_at = Option.map to_column a.authorized_at;
  settled_at = Option.map to_column a.settled_at;
  created_at = to_column a.created_at;
  updated_at = to_column a.updated_at;
}

read_payment-storable :
    (to_column : Instant → Instant) (p : PaymentRequest)
    → IsStorable p
    → read_payment (payment_row to_column p) ≡ ok (kept_payment to_column p)
unfolding read_payment payment_row
read_payment-storable to_column p (order, key, (positive, letters)) =
    rw
      (
        checked_key-IsKey invalid_merchant_order_id p.merchant_order_id order,
        checked_key-IsKey invalid_idempotency_key p.idempotency_key key,
        new_amount-get p.amount_minor positive,
        from_str-as_str p.currency letters,
        print_payment p.status,
        known_methods-methods_json p.allowed_methods,
      )
      refl

read_attempt-storable :
    (to_column : Instant → Instant) (a : PaymentAttempt)
    → IsPrice a.amount_minor a.currency
    → read_attempt (attempt_row to_column a) ≡ ok (kept_attempt to_column a)
unfolding read_attempt attempt_row
read_attempt-storable to_column a (positive, letters) =
    rw
      (
        new_amount-get a.amount_minor positive,
        from_str-as_str a.currency letters,
        print_attempt a.status,
      )
      refl

-- A column that was read held what the domain accepts.
column-ok :
    {A : Type 0} (name : String) (r : Result DomainError A) (a : A)
    → column name r ≡ ok a
    → r ≡ ok a
column-ok name (ok b) a h = ap ok (ok-injective h)
column-ok name (err e) a h = cc

checked_key-ok :
    (name : String) (e : DomainError) (s : String) (v : List ℕ)
    → column name (checked_key 128 e (as_bytes s)) ≡ ok v
    → IsKey s
unfolding checked_key
checked_key-ok name e s v h =
    elim (Bool-cases (is_empty (as_bytes s) || ltb 128 (length (as_bytes s)))) [
      | inl bad ↦ absurd (cc (rw bad at h))
      | inr good ↦ good
    ]

column-IsPrice :
    (n : ℤ) (text : List ℕ) (a : AmountMinor) (c : Currency)
    → column "amount_minor" (new_amount n) ≡ ok a
    → column "currency" (from_str text) ≡ ok c
    → IsPrice a c
unfolding new_amount
column-IsPrice n text a c ha hc = (
  elim (Bool-cases (leb_ℤ n (pos 0))) [
    | inl bad ↦ absurd (cc (rw bad at ha))
    | inr good ↦
        let q : ◌≡◌ {A = AmountMinor} (record { get = n }) a = ok-injective (rw good at ha) in
        rw (← q) good
  ],
  (from_str_upper text c (column-ok "currency" (from_str text) c hc)).1,
)

read_payment-ok : (row : PaymentRow) (p : PaymentRequest) → read_payment row ≡ ok p → IsStorable p
unfolding read_payment
read_payment-ok row p h =
    let (order, eo, h1) =
      bind-ok
        (column "merchant_order_id"
          (checked_key 128 invalid_merchant_order_id (as_bytes row.merchant_order_id)))
        _ h in
    let (amount, ea, h2) = bind-ok (column "amount_minor" (new_amount row.amount_minor)) _ h1 in
    let (currency, ec, h3) = bind-ok (column "currency" (from_str row.currency)) _ h2 in
    let (status, _, h4) = bind-ok (parse_payment_status row.status) _ h3 in
    let (key, ek, h5) =
      bind-ok
        (column "idempotency_key"
          (checked_key 128 invalid_idempotency_key (as_bytes row.idempotency_key)))
        _ h4 in
    subst IsStorable (ok-injective h5) (
      checked_key-ok "merchant_order_id" invalid_merchant_order_id row.merchant_order_id order eo,
      checked_key-ok "idempotency_key" invalid_idempotency_key row.idempotency_key key ek,
      column-IsPrice row.amount_minor row.currency amount currency ea ec,
    )

read_attempt-ok :
    (row : AttemptRow) (a : PaymentAttempt)
    → read_attempt row ≡ ok a
    → IsPrice a.amount_minor a.currency
unfolding read_attempt
read_attempt-ok row a h =
    let (status, _, h1) = bind-ok (parse_attempt_status row.status) _ h in
    let (amount, ea, h2) = bind-ok (column "amount_minor" (new_amount row.amount_minor)) _ h1 in
    let (currency, ec, h3) = bind-ok (column "currency" (from_str row.currency)) _ h2 in
    subst (λ (x : PaymentAttempt). IsPrice x.amount_minor x.currency) (ok-injective h3)
      (column-IsPrice row.amount_minor row.currency amount currency ea ec)

-- A payment or an attempt is read back from its row as it was written, but for the resolution of the
-- instants, if its amount is positive, its currency has three capital letters and a payment's two keys
-- have 1 to 128 bytes; and whatever row a payment or an attempt is read from, it has all this.
pub read_payment-payment_row :
    (to_column : Instant → Instant) (p : PaymentRequest) (a : PaymentAttempt)
    → (IsStorable p ↔ (read_payment (payment_row to_column p) ≡ ok (kept_payment to_column p)))
      × (IsPrice a.amount_minor a.currency
          ↔ (read_attempt (attempt_row to_column a) ≡ ok (kept_attempt to_column a)))
      × ((row : PaymentRow) → read_payment row ≡ ok p → IsStorable p)
      × ((row : AttemptRow) → read_attempt row ≡ ok a → IsPrice a.amount_minor a.currency)
read_payment-payment_row to_column p a = (
  (
    read_payment-storable to_column p,
    read_payment-ok (payment_row to_column p) (kept_payment to_column p),
  ),
  (
    read_attempt-storable to_column a,
    read_attempt-ok (attempt_row to_column a) (kept_attempt to_column a),
  ),
  λ row h. read_payment-ok row p h,
  λ row h. read_attempt-ok row a h,
)
