-- ===== src/Domain/Money.antt =====
-- Currencies and amounts in minor units (crates/openpay-domain/src/money.rs). A text is the list of
-- its characters, an `i64` an integer.
pub mod Validity
use vega_trix.Base.{
  ℕ, Bool, true, false, ◌||◌, not, List, [], ◌∷◌, map, Result, ok, err, ◌>>=◌, all, length, ◌==◌,
  if◌then◌else◌,
}
use vega_trix.Base.Int.{ℤ, pos, leb_ℤ}
use vega_trix.Base.Text.{is_alphabetic, to_upper, trim}
use vega_trix.Domain.Error.{DomainError, invalid_currency, invalid_amount}

-- `Currency(pub [u8; 3])`
pub record Currency : Type 0 where
  pub b0 : ℕ
  pub b1 : ℕ
  pub b2 : ℕ

abbrev pub eur : Currency
eur = record { b0 = b'E'; b1 = b'U'; b2 = b'R' }

-- `Currency::as_str`. Every currency that the program builds is ASCII, so the fallback for bytes
-- that are no UTF-8 is left out.
unfoldable pub as_str : Currency → List ℕ
as_str c = c.b0 ∷ c.b1 ∷ c.b2 ∷ []

three : List ℕ → Result (DomainError) Currency
three (a ∷ b ∷ c ∷ []) = ok (record { b0 = a; b1 = b; b2 = c })
three s = err (invalid_currency s)

-- The test of `Currency::from_str`. The source measures bytes; where all characters are ASCII letters
-- those are as many as the characters, and otherwise both tests refuse the text.
letters_only : List ℕ → Result DomainError Currency
unfolding three
letters_only s =
    if not (length s == 3) || not (all is_alphabetic s) then err (invalid_currency s) else three s

-- `Currency::from_str`
unfoldable pub from_str : List ℕ → Result DomainError Currency
unfolding letters_only
from_str raw = letters_only (map to_upper (trim raw))

pub record AmountMinor : Type 0 where
  pub get : ℤ

-- `AmountMinor::new`
unfoldable pub new_amount : ℤ → Result DomainError AmountMinor
new_amount value = if leb_ℤ value (pos 0) then err invalid_amount else ok (record { get = value })

abbrev pub zero_amount : AmountMinor
zero_amount = record { get = pos 0 }

pub record Money : Type 0 where
  pub amount_minor : AmountMinor
  pub currency : Currency

-- `Money::new`
unfoldable pub new_money : ℤ → Currency → Result DomainError Money
unfolding new_amount
new_money amount currency = do
  a ← new_amount amount
  ok (record { amount_minor = a; currency = currency })
