-- ===== src/Base/Bits/Digits.antt =====
-- Each native bit operation, one digit at a time.
use Prim.Native.Nat.{ℕ, zero, suc, ◌+◌, ◌*◌, ◌/◌, ◌%◌, ◌^◌, ◌≤◌, min, max, differ, digits}
use Prim.Native.Nat.{bit_and, bit_or, bit_xor, bit_and-bitwise, bit_or-bitwise, bit_xor-bitwise}
use mathlib.Core.Path.{◌≡◌, refl, sym, ap, ◌∙◌}
use native.Mathlib.Nat.{pow-suc, div-div-eq-div-mul, mul_comm, div-one}
use native.Mathlib.Omega.{arith}

infixl 75 ◌<<<◌ ◌>>>◌
-- C's shifts, before any cast cuts the result off.
abbrev pub ◌<<<◌ : ℕ → ℕ → ℕ
x <<< k = x * 2 ^ k

abbrev pub ◌>>>◌ : ℕ → ℕ → ℕ
x >>> k = x / 2 ^ k

-- Digit `i` of `a`, 0 or 1.
abbrev pub bit : ℕ → ℕ → ℕ
bit i a = a / 2 ^ i % 2

-- More fuel than digits changes nothing.
module _ (z : ℕ → ℕ) (f : ℕ → ℕ → ℕ) where
  digits_enough : (a b n m : ℕ) → a ≤ n → a ≤ m → digits z f n a b ≡ digits z f m a b
  digits_enough a b n m p q = go n a b m p q
    where
      go : (n a b m : ℕ) → a ≤ n → a ≤ m → digits z f n a b ≡ digits z f m a b
      go zero zero b zero p q = refl
      go zero zero b (suc m) p q = refl
      go zero (suc a) b m p q = absurd (omega arith)
      go (suc n) zero b zero p q = refl
      go (suc n) zero b (suc m) p q = refl
      go (suc n) (suc a) b zero p q = absurd (omega arith)
      go (suc n) (suc a) b (suc m) p q =
          ap (λ d. d * 2 + f (suc a % 2) (b % 2))
            (go n (suc a / 2) (b / 2) m (omega arith) (omega arith))

  digits_next :
      (a b : ℕ)
      → digits z f (suc a) (suc a) b
        ≡ digits z f (suc a / 2) (suc a / 2) (b / 2) * 2 + f (suc a % 2) (b % 2)
  digits_next a b =
      ap (λ d. d * 2 + f (suc a % 2) (b % 2))
        (digits_enough (suc a / 2) (b / 2) a (suc a / 2) (omega arith) (omega arith))

pub bit_or_step : (a b : ℕ) → bit_or a b ≡ bit_or (a / 2) (b / 2) * 2 + max (a % 2) (b % 2)
bit_or_step zero b = omega (arith, bit_or-bitwise 0 b, bit_or-bitwise 0 (b / 2))
bit_or_step (suc a) b = omega (
  arith,
  bit_or-bitwise (suc a) b,
  bit_or-bitwise (suc a / 2) (b / 2),
  digits_next (λ y. y) max a b,
)

pub bit_and_step : (a b : ℕ) → bit_and a b ≡ bit_and (a / 2) (b / 2) * 2 + min (a % 2) (b % 2)
bit_and_step zero b = omega (arith, bit_and-bitwise 0 b, bit_and-bitwise 0 (b / 2))
bit_and_step (suc a) b = omega (
  arith,
  bit_and-bitwise (suc a) b,
  bit_and-bitwise (suc a / 2) (b / 2),
  digits_next (λ y. 0) min a b,
)

pub bit-suc : (i a : ℕ) → bit (suc i) a ≡ bit i (a / 2)
bit-suc i a =
    ap (λ t. t % 2)
      (ap (λ t. a / t) (pow-suc 2 i ∙ mul_comm (2 ^ i) 2) ∙ sym (div-div-eq-div-mul a 2 (2 ^ i)))

pub bit-le-one : (i a : ℕ) → bit i a ≤ 1
bit-le-one i a = omega arith

-- A digit of `a | b` is set when it is in `a` or in `b`.
pub bit-bit_or : (i a b : ℕ) → bit i (bit_or a b) ≡ max (bit i a) (bit i b)
bit-bit_or zero a b = simp div-one (omega (arith, bit_or_step a b))
bit-bit_or (suc i) a b =
    let half : bit_or a b / 2 ≡ bit_or (a / 2) (b / 2) = omega (arith, bit_or_step a b) in
    simp (bit-suc i, half) (bit-bit_or i (a / 2) (b / 2))

pub bit_xor_step : (a b : ℕ) → bit_xor a b ≡ bit_xor (a / 2) (b / 2) * 2 + differ (a % 2) (b % 2)
bit_xor_step zero b = omega (arith, bit_xor-bitwise 0 b, bit_xor-bitwise 0 (b / 2))
bit_xor_step (suc a) b = omega (
  arith,
  bit_xor-bitwise (suc a) b,
  bit_xor-bitwise (suc a / 2) (b / 2),
  digits_next (λ y. y) differ a b,
)
