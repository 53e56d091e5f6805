-- ===== src/Domain/Money/Validity.antt =====
-- What a value that passed validation is known to be.
use vega_trix.Base.{
  ℕ, ◌≡◌, refl, true, List, [], ◌∷◌, map, ok, err, arith, all, Bool-cases, inl, inr,
}
use vega_trix.Base.Int.{ℤ, pos, ◌<ℤ◌}
use vega_trix.Base.Text.{to_upper, is_upper, is_alphabetic, trim, trim_three, upper_is_plain}
use vega_trix.Domain.Error.{invalid_amount}
use vega_trix.Domain.Money.{Currency, letters_only, from_str, as_str, new_money}

-- `Money::new` succeeds exactly on the amounts above zero and keeps both parts; every other amount
-- is refused as invalid.
new_money_positive :
    (amount : ℤ) (c : Currency)
    → (pos 0 <ℤ amount
        → new_money amount c ≡ ok (record { amount_minor = record { get = amount }; currency = c }))
      × (¬ (pos 0 <ℤ amount) → new_money amount c ≡ err invalid_amount)
unfolding new_money
new_money_positive amount c = (λ h. ground arith, λ h. ground arith)

letters_only_lem :
    (s : List ℕ) (c : Currency)
    → letters_only s ≡ ok c
    → (as_str c ≡ s) × (all is_alphabetic s ≡ true)
unfolding letters_only as_str
letters_only_lem [] c h = cc
letters_only_lem (x ∷ []) c h = ground arith
letters_only_lem (x ∷ y ∷ []) c h = ground arith
letters_only_lem (x ∷ y ∷ z ∷ []) c h = elim (Bool-cases (all is_alphabetic (x ∷ y ∷ z ∷ []))) [
  | inl letters ↦ (ground (arith, letters), letters)
  | inr other ↦ cc (rw other at h)
]
letters_only_lem (x ∷ y ∷ z ∷ w ∷ s) c h = ground arith

upper_letters :
    (s : List ℕ) → all is_alphabetic (map to_upper s) ≡ true → all is_upper (map to_upper s) ≡ true
upper_letters [] h = refl
upper_letters (x ∷ s) h = ground (arith, upper_letters s)

-- A text that is accepted as a currency is, trimmed and in upper case, exactly the code that is
-- kept, and the code is three upper-case letters.
pub from_str_upper :
    (s : List ℕ) (c : Currency)
    → from_str s ≡ ok c
    → (as_str c ≡ map to_upper (trim s)) × (all is_upper (as_str c) ≡ true)
unfolding from_str
from_str_upper s c h =
    let (same, letters) = letters_only_lem (map to_upper (trim s)) c h in
    (same, rw same (upper_letters (trim s) letters))

plain_letters :
    (a b c : ℕ)
    → all is_upper (a ∷ b ∷ c ∷ []) ≡ true
    → letters_only (map to_upper (trim (a ∷ b ∷ c ∷ []))) ≡ ok (record { b0 = a; b1 = b; b2 = c })
unfolding letters_only
plain_letters a b c h =
    let (wa, ua, la) = upper_is_plain a (ground arith) in
    let (wb, ub, lb) = upper_is_plain b (ground arith) in
    let (wc, uc, lc) = upper_is_plain c (ground arith) in
    rw (trim_three a b c wa wc, ua, ub, uc, la, lb, lc)

-- Printing a code of three upper-case letters and reading it back gives the code.
pub from_str-as_str : (c : Currency) → all is_upper (as_str c) ≡ true → from_str (as_str c) ≡ ok c
unfolding from_str as_str
from_str-as_str c h = plain_letters c.b0 c.b1 c.b2 h
