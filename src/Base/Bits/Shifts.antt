-- ===== src/Base/Bits/Shifts.antt =====
-- The digits of shifted and truncated words.
use Prim.Native.Nat.{ℕ, zero, suc, ◌+◌, ◌-◌, ◌*◌, ◌/◌, ◌%◌, ◌^◌, ◌<◌}
use mathlib.Core.Path.{◌≡◌, refl, sym, ap, ◌∙◌}
use native.Mathlib.Nat.{pow-suc, one-le-pow, mul_comm, zero-div, div-one, mul-one}
use native.Mathlib.Omega.{arith}
use nano_dtls.Base.Tests.{ltb, ◌==◌, if◌then◌else◌}
use nano_dtls.Base.Bits.Digits.{bit, bit-suc, ◌<<<◌}
use nano_dtls.Base.Bits.Masks.{mod_double}

pub bit-zero : (i : ℕ) → bit i 0 ≡ 0
bit-zero i = omega (arith, zero-div (2 ^ i))

pub bit-one : (i : ℕ) → bit i 1 ≡ (if i == 0 then 1 else 0)
bit-one zero = refl
bit-one (suc i) = bit-suc i 1 ∙ bit-zero i ∙ ground arith

twice_shift : (a s : ℕ) → a <<< suc s ≡ 2 * (a <<< s)
twice_shift a s = omega (arith, ap (λ (t : ℕ). a * t) (pow-suc 2 s))

-- Shifting left by `s` moves digit `i - s` to `i`, and brings in zeros.
pub bit-shift : (i s a : ℕ) → bit i (a <<< s) ≡ (if ltb i s then 0 else bit (i - s) a)
bit-shift i zero a = ground (arith, ap (bit i) (mul-one a))
bit-shift zero (suc s) a = ground (arith, twice_shift a s, div-one (a <<< suc s))
bit-shift (suc i) (suc s) a =
    bit-suc i (a <<< suc s)
    ∙ ap (bit i) (omega (arith, twice_shift a s))
    ∙ bit-shift i s a
    ∙ ground arith

cut_low : (a w : ℕ) → a % 2 ^ suc w ≡ a / 2 % 2 ^ w * 2 + a % 2
cut_low a w =
    rw (pow-suc 2 w, mul_comm (2 ^ w) 2) (mod_double a (2 ^ w) (one-le-pow w 2 (omega arith)))

-- Truncation to `w` digits keeps those below `w`.
pub bit-mod : (i w a : ℕ) → i < w → bit i (a % 2 ^ w) ≡ bit i a
bit-mod i zero a h = absurd (omega arith)
bit-mod zero (suc w) a h = ground (arith, cut_low a w, div-one (a % 2 ^ suc w), div-one a)
bit-mod (suc i) (suc w) a h =
    bit-suc i (a % 2 ^ suc w)
    ∙ ap (bit i) (omega (arith, cut_low a w))
    ∙ bit-mod i w (a / 2) (omega arith)
    ∙ sym (bit-suc i a)
