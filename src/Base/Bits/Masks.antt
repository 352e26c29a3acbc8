-- ===== src/Base/Bits/Masks.antt =====
-- `|` of disjoint fields and `&` with a mask of low ones, as arithmetic at every width.
use Prim.Native.Nat.{ℕ, zero, suc, ◌+◌, ◌-◌, ◌*◌, ◌/◌, ◌%◌, ◌^◌, ◌≤◌, ◌<◌, bit_and, bit_or}
use mathlib.Core.Path.{◌≡◌, refl, ap, sym, ◌∙◌}
use native.Mathlib.Nat.{
  pow-suc, one-le-pow, mul_comm, mul-one, div-one, div-div-eq-div-mul, mul-add-mod_self_left,
  mod-eq_of_lt, div-add-mod, mod-lt,
}
use native.Mathlib.Omega.{arith}
use nano_dtls.Base.Bits.Digits.{bit_or_step, bit_and_step}

bit_or-zero_below : (n a : ℕ) → a ≤ n → bit_or a 0 ≡ a
bit_or-zero_below n zero h = refl
bit_or-zero_below zero (suc a) h = absurd (omega arith)
bit_or-zero_below (suc n) (suc a) h =
    omega (arith, bit_or_step (suc a) 0, bit_or-zero_below n (suc a / 2) (omega arith))

pub bit_or-zero : (a : ℕ) → bit_or a 0 ≡ a
bit_or-zero a = bit_or-zero_below a a (omega arith)

bit_and-zero_below : (n a : ℕ) → a ≤ n → bit_and a 0 ≡ 0
bit_and-zero_below n zero h = refl
bit_and-zero_below zero (suc a) h = absurd (omega arith)
bit_and-zero_below (suc n) (suc a) h =
    omega (arith, bit_and_step (suc a) 0, bit_and-zero_below n (suc a / 2) (omega arith))

twice_pow : (q k : ℕ) → q * 2 ^ suc k ≡ 2 * (q * 2 ^ k)
twice_pow q k = omega (arith, ap (λ (t : ℕ). q * t) (pow-suc 2 k))

-- `a | r` is a sum where `a` has no digit below `k` and `r` none from `k` on.
pub bit_or_sum : (k q a r : ℕ) → a ≡ q * 2 ^ k → r < 2 ^ k → bit_or a r ≡ a + r
bit_or_sum zero q a r e h = ground (arith, bit_or-zero a)
bit_or_sum (suc k) q a r e h = omega (
  arith,
  bit_or_step a r,
  twice_pow q k,
  pow-suc 2 k,
  bit_or_sum k q (a / 2) (r / 2) (omega (arith, twice_pow q k)) (omega (arith, pow-suc 2 k)),
)

-- A remainder is known by its quotient.
pub mod_unique : (a m q t : ℕ) → a ≡ m * q + t → t < m → a % m ≡ t
mod_unique a m q t e h = rw (e, mul-add-mod_self_left, mod-eq_of_lt h)

pub mod_double : (a p : ℕ) → 0 < p → a % (2 * p) ≡ a / 2 % p * 2 + a % 2
mod_double a p h =
    mod_unique a (2 * p) (a / 2 / p) (a / 2 % p * 2 + a % 2)
      (omega (arith, div-add-mod (a / 2) p, ap (λ (t : ℕ). 2 * t) (div-add-mod (a / 2) p)))
      (omega (arith, mod-lt (a / 2) h))

half_mask : (p : ℕ) → (2 * p - 1) / 2 ≡ p - 1
half_mask p = omega arith

-- `a & (2 ^ k - 1)` is the remainder by `2 ^ k`.
pub bit_and_mask : (k a : ℕ) → bit_and a (2 ^ k - 1) ≡ a % 2 ^ k
bit_and_mask zero a = ground (arith, bit_and-zero_below a a)
bit_and_mask (suc k) a =
    rw (pow-suc 2 k, mul_comm (2 ^ k) 2)
      (omega (
        arith,
        bit_and_step a (2 * 2 ^ k - 1),
        one-le-pow k 2 (omega arith),
        ap (λ (t : ℕ). bit_and (a / 2) t) (half_mask (2 ^ k)),
        bit_and_mask k (a / 2),
        mod_double a (2 ^ k) (one-le-pow k 2 (omega arith)),
      ))

pub bit_or-lt : (k a b : ℕ) → a < 2 ^ k → b < 2 ^ k → bit_or a b < 2 ^ k
bit_or-lt zero a b h k = ground (arith, bit_or-zero 0)
bit_or-lt (suc n) a b h k = omega (
  arith,
  bit_or_step a b,
  pow-suc 2 n,
  bit_or-lt n (a / 2) (b / 2) (omega (arith, pow-suc 2 n)) (omega (arith, pow-suc 2 n)),
)

-- `a` masked by `n` ones above `k` zeros keeps its digits from `k` on.
pub bit_and_high : (k n a : ℕ) → bit_and a ((2 ^ n - 1) * 2 ^ k) ≡ a / 2 ^ k % 2 ^ n * 2 ^ k
bit_and_high zero n a = simp (mul-one, div-one) (bit_and_mask n a)
bit_and_high (suc k) n a =
    let double : (2 ^ n - 1) * 2 ^ suc k ≡ 2 * ((2 ^ n - 1) * 2 ^ k) = twice_pow (2 ^ n - 1) k in
    let halves : a / 2 ^ suc k ≡ a / 2 / 2 ^ k =
      ap (λ t. a / t) (pow-suc 2 k ∙ mul_comm (2 ^ k) 2) ∙ sym (div-div-eq-div-mul a 2 (2 ^ k)) in
    let half : 2 * ((2 ^ n - 1) * 2 ^ k) / 2 ≡ (2 ^ n - 1) * 2 ^ k = omega arith in
    rw (double, halves)
      (omega (
        arith,
        bit_and_step a (2 * ((2 ^ n - 1) * 2 ^ k)),
        ap (bit_and (a / 2)) half,
        bit_and_high k n (a / 2),
        twice_pow (a / 2 / 2 ^ k % 2 ^ n) k,
      ))

bit_or_comm_below : (n a b : ℕ) → a + b ≤ n → bit_or a b ≡ bit_or b a
bit_or_comm_below zero zero zero h = refl
bit_or_comm_below zero (suc a) b h = absurd (omega arith)
bit_or_comm_below zero zero (suc b) h = absurd (omega arith)
bit_or_comm_below (suc n) a b h =
    omega
      (arith, bit_or_step a b, bit_or_step b a, bit_or_comm_below n (a / 2) (b / 2) (omega arith))

-- A low part joined with a high one is their sum.
pub bit_or_low : (k r q : ℕ) → r < 2 ^ k → bit_or r (q * 2 ^ k) ≡ r + q * 2 ^ k
bit_or_low k r q h =
    bit_or_comm_below (r + q * 2 ^ k) r (q * 2 ^ k) (omega arith)
    ∙ bit_or_sum k q (q * 2 ^ k) r refl h
    ∙ omega arith
