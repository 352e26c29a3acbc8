-- ===== src/Base/Bits/Xor.antt =====
-- XOR of numbers: what undoes it, and its size.
use Prim.Native.Nat.{ℕ, zero, suc, ◌+◌, ◌*◌, ◌/◌, ◌%◌, ◌^◌, ◌≤◌, ◌<◌, differ, bit_xor, bit_or}
use mathlib.Core.Path.{◌≡◌, refl, sym, ap₂, ◌∙◌}
use native.Mathlib.Nat.{pow-suc}
use native.Mathlib.Omega.{arith}
use nano_dtls.Base.Bits.Digits.{bit_xor_step, bit_or_step}

differ_cancel :
    (x y z p q : ℕ)
    → x < 2
    → y < 2
    → z < 2
    → p * 2 + differ x y ≡ q * 2 + differ x z
    → (y ≡ z) × (p ≡ q)
differ_cancel zero zero zero p q hx hy hz h = (refl, omega arith)
differ_cancel zero zero (suc zero) p q hx hy hz h = absurd (omega arith)
differ_cancel zero (suc zero) zero p q hx hy hz h = absurd (omega arith)
differ_cancel zero (suc zero) (suc zero) p q hx hy hz h = (refl, omega arith)
differ_cancel (suc zero) zero zero p q hx hy hz h = (refl, omega arith)
differ_cancel (suc zero) zero (suc zero) p q hx hy hz h = absurd (omega arith)
differ_cancel (suc zero) (suc zero) zero p q hx hy hz h = absurd (omega arith)
differ_cancel (suc zero) (suc zero) (suc zero) p q hx hy hz h = (refl, omega arith)
differ_cancel (suc (suc x)) y z p q hx hy hz h = absurd (omega arith)
differ_cancel x (suc (suc y)) z p q hx hy hz h = absurd (omega arith)
differ_cancel x y (suc (suc z)) p q hx hy hz h = absurd (omega arith)

-- XOR with the same number on the left is undone.
bit_xor_cancel_below : (n a b c : ℕ) → a ≤ n → b ≤ n → c ≤ n → bit_xor a b ≡ bit_xor a c → b ≡ c
bit_xor_cancel_below zero a b c ha hb hc h = omega arith
bit_xor_cancel_below (suc n) a b c ha hb hc h =
    let (low, high) =
      (differ_cancel (a % 2) (b % 2) (c % 2) (bit_xor (a / 2) (b / 2)) (bit_xor (a / 2) (c / 2))
        (omega arith) (omega arith) (omega arith)
        (sym (bit_xor_step a b) ∙ h ∙ bit_xor_step a c)) in
    let half : b / 2 ≡ c / 2 =
      bit_xor_cancel_below n (a / 2) (b / 2) (c / 2) (omega arith) (omega arith) (omega arith)
        high in
    omega arith

pub bit_xor_cancel : (a b c : ℕ) → bit_xor a b ≡ bit_xor a c → b ≡ c
bit_xor_cancel a b c =
    bit_xor_cancel_below (a + b + c) a b c (omega arith) (omega arith) (omega arith)

differ_twice : (x y : ℕ) → x < 2 → y < 2 → differ (differ x y) y ≡ x
differ_twice zero zero hx hy = refl
differ_twice zero (suc zero) hx hy = refl
differ_twice (suc zero) zero hx hy = refl
differ_twice (suc zero) (suc zero) hx hy = refl
differ_twice (suc (suc x)) y hx hy = absurd (omega arith)
differ_twice x (suc (suc y)) hx hy = absurd (omega arith)

differ-lt : (x y : ℕ) → x < 2 → y < 2 → differ x y < 2
differ-lt zero y hx hy = hy
differ-lt (suc zero) zero hx hy = omega arith
differ-lt (suc zero) (suc zero) hx hy = omega arith
differ-lt (suc (suc x)) y hx hy = absurd (omega arith)
differ-lt x (suc (suc y)) hx hy = absurd (omega arith)

-- The two parts of an XOR.
bit_xor_halves :
    (a b : ℕ)
    → (bit_xor a b / 2 ≡ bit_xor (a / 2) (b / 2)) × (bit_xor a b % 2 ≡ differ (a % 2) (b % 2))
bit_xor_halves a b =
    omega (arith, bit_xor_step a b, differ-lt (a % 2) (b % 2) (omega arith) (omega arith))

bit_xor_twice_below : (n a b : ℕ) → a ≤ n → b ≤ n → bit_xor (bit_xor a b) b ≡ a
bit_xor_twice_below zero zero zero ha hb = refl
bit_xor_twice_below zero (suc a) b ha hb = absurd (omega arith)
bit_xor_twice_below zero zero (suc b) ha hb = absurd (omega arith)
bit_xor_twice_below (suc n) a b ha hb =
    let (half, last) = bit_xor_halves a b in
    bit_xor_step (bit_xor a b) b
    ∙ ap₂ (λ x y. bit_xor x (b / 2) * 2 + differ y (b % 2)) half last
    ∙ omega (
      arith,
      bit_xor_twice_below n (a / 2) (b / 2) (omega arith) (omega arith),
      differ_twice (a % 2) (b % 2) (omega arith) (omega arith),
    )

-- XOR twice with the same number on the right does nothing.
pub bit_xor_twice : (a b : ℕ) → bit_xor (bit_xor a b) b ≡ a
bit_xor_twice a b = bit_xor_twice_below (a + b) a b (omega arith) (omega arith)

below_one : (a : ℕ) → a < 1 → a ≡ 0
below_one a h = omega arith

-- It needs no more digits than its arguments.
pub bit_xor-lt : (k a b : ℕ) → a < 2 ^ k → b < 2 ^ k → bit_xor a b < 2 ^ k
bit_xor-lt zero a b ha hb = omega (arith, ap₂ bit_xor (below_one a ha) (below_one b hb))
bit_xor-lt (suc k) a b ha hb = omega (
  arith,
  bit_xor_step a b,
  differ-lt (a % 2) (b % 2) (omega arith) (omega arith),
  pow-suc 2 k,
  bit_xor-lt k (a / 2) (b / 2) (omega (arith, pow-suc 2 k)) (omega (arith, pow-suc 2 k)),
)

bit_xor_self_below : (n a : ℕ) → a ≤ n → bit_xor a a ≡ 0
bit_xor_self_below zero zero h = refl
bit_xor_self_below zero (suc a) h = absurd (omega arith)
bit_xor_self_below (suc n) a h =
    bit_xor_step a a
    ∙ omega (arith, bit_xor_self_below n (a / 2) (omega arith), differ_self (a % 2) (omega arith))
  where
    differ_self : (x : ℕ) → x < 2 → differ x x ≡ 0
    differ_self zero h = refl
    differ_self (suc zero) h = refl
    differ_self (suc (suc x)) h = absurd (omega arith)

pub bit_xor_self : (a : ℕ) → bit_xor a a ≡ 0
bit_xor_self a = bit_xor_self_below a a (omega arith)

-- Nothing but equal numbers XOR to zero.
pub bit_xor_zero : (a b : ℕ) → bit_xor a b ≡ 0 → a ≡ b
bit_xor_zero a b h = sym (bit_xor_cancel a b a (h ∙ sym (bit_xor_self a)))

bit_or_zero_below : (n a b : ℕ) → a ≤ n → b ≤ n → bit_or a b ≡ 0 → (a ≡ 0) × (b ≡ 0)
bit_or_zero_below zero a b ha hb h = (omega arith, omega arith)
bit_or_zero_below (suc n) a b ha hb h =
    let (half, half') =
      bit_or_zero_below n (a / 2) (b / 2) (omega arith) (omega arith)
        (omega (arith, bit_or_step a b)) in
    omega (arith, bit_or_step a b)

-- `|` is zero where both sides are.
pub bit_or_zero : (a b : ℕ) → bit_or a b ≡ 0 → (a ≡ 0) × (b ≡ 0)
bit_or_zero a b = bit_or_zero_below (a + b) a b (omega arith) (omega arith)
