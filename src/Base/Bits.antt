-- ===== src/Base/Bits.antt =====
-- When an exclusive or, and an or, of two numbers is zero: by recursion on their binary digits.
use Prim.Native.Nat.{
  ℕ, zero, suc, ◌/◌, ◌%◌, ◌≤◌, max, bit_or, bit_xor, differ, digits, bit_or-bitwise,
  bit_xor-bitwise,
}
use mathlib.Core.Path.{◌≡◌, refl, ap}
use native.Mathlib.Omega.{arith}

differ_zero : (x y : ℕ) → differ x y ≡ 0 → x ≡ y
differ_zero zero y h = omega arith
differ_zero (suc x) zero h = omega arith
differ_zero (suc x) (suc y) h = ap suc (differ_zero x y h)

differ_self : (x : ℕ) → differ x x ≡ 0
differ_self zero = refl
differ_self (suc x) = differ_self x

xor_digits_zero : (n a b : ℕ) → a ≤ n → digits (λ c. c) differ n a b ≡ 0 → a ≡ b
xor_digits_zero zero zero b p h = omega arith
xor_digits_zero zero (suc a) b p h = absurd (omega arith)
xor_digits_zero (suc n) zero b p h = omega arith
xor_digits_zero (suc n) (suc a) b p h =
    let halves = xor_digits_zero n (suc a / 2) (b / 2) (omega arith) (omega arith) in
    let last = differ_zero (suc a % 2) (b % 2) (omega arith) in omega arith

xor_digits_self : (n a : ℕ) → a ≤ n → digits (λ c. c) differ n a a ≡ 0
xor_digits_self zero zero p = refl
xor_digits_self zero (suc a) p = absurd (omega arith)
xor_digits_self (suc n) zero p = refl
xor_digits_self (suc n) (suc a) p =
    omega (arith, xor_digits_self n (suc a / 2) (omega arith), differ_self (suc a % 2))

or_digits_zero : (n a b : ℕ) → a ≤ n → digits (λ c. c) max n a b ≡ 0 → (a ≡ 0) × (b ≡ 0)
or_digits_zero zero zero b p h = omega arith
or_digits_zero zero (suc a) b p h = absurd (omega arith)
or_digits_zero (suc n) zero b p h = omega arith
or_digits_zero (suc n) (suc a) b p h =
    let (x, y) = or_digits_zero n (suc a / 2) (b / 2) (omega arith) (omega arith) in omega arith

pub bit_xor_zero : (a b : ℕ) → bit_xor a b ≡ 0 → a ≡ b
bit_xor_zero a b h = xor_digits_zero a a b (omega arith) (omega (arith, bit_xor-bitwise a b))

pub bit_xor_self : (a : ℕ) → bit_xor a a ≡ 0
bit_xor_self a = omega (arith, bit_xor-bitwise a a, xor_digits_self a a (omega arith))

pub bit_or_zero : (a b : ℕ) → bit_or a b ≡ 0 → (a ≡ 0) × (b ≡ 0)
bit_or_zero a b h = or_digits_zero a a b (omega arith) (omega (arith, bit_or-bitwise a b))
