-- ===== src/Base/Compare.antt =====
-- The comparison in constant time that the source writes out for tags and for Finished messages:
-- `diff` collects the differing bits of all bytes.
use Prim.Native.Nat.{ℕ, ◌<◌, bit_or, bit_xor}
use mathlib.Core.Path.{◌≡◌, refl, ap, ap₂, ◌∙◌}
use mathlib.Core.List.{[], ◌∷◌}
use native.Mathlib.Omega.{arith}
use nano_dtls.Base.Lists.{length}
use nano_dtls.Base.Outcomes.{Result, ok, fault, ok-injective}
use nano_dtls.Base.Bits.{bit_xor_self, bit_xor_zero, bit_or_zero, bit_xor-lt, bit_or-lt}
use nano_dtls.Base.Buffers.{Bytes, IsBytes, u8}

-- The loop over the bytes of the first array, from a `diff`; the second has to be as long.
unfoldable pub diff_bytes : ℕ → Bytes → Bytes → Result ℕ
diff_bytes diff [] ys = ok diff
diff_bytes diff (x ∷ xs) [] = fault
diff_bytes diff (x ∷ xs) (y ∷ ys) = diff_bytes (u8 (bit_or diff (bit_xor x y))) xs ys

pub diff_bytes_total :
    (diff : ℕ) (xs ys : Bytes) → length xs ≡ length ys → (d : ℕ) × (diff_bytes diff xs ys ≡ ok d)
unfolding diff_bytes
diff_bytes_total diff [] ys h = (diff, refl)
diff_bytes_total diff (x ∷ xs) [] h = absurd (omega arith)
diff_bytes_total diff (x ∷ xs) (y ∷ ys) h =
    diff_bytes_total (u8 (bit_or diff (bit_xor x y))) xs ys (omega arith)

pub diff_bytes_same : (xs : Bytes) → diff_bytes 0 xs xs ≡ ok 0
unfolding diff_bytes
diff_bytes_same [] = refl
diff_bytes_same (x ∷ xs) =
    ap (λ d. diff_bytes (u8 (bit_or 0 d)) xs xs) (bit_xor_self x) ∙ diff_bytes_same xs

-- A difference of zero is left by equal arrays only.
pub diff_bytes-zero :
    (diff : ℕ) (xs ys : Bytes)
    → diff < 256
    → IsBytes xs
    → IsBytes ys
    → length xs ≡ length ys
    → diff_bytes diff xs ys ≡ ok 0
    → (diff ≡ 0) × (xs ≡ ys)
unfolding diff_bytes
diff_bytes-zero diff [] [] small hx hy e h = (ok-injective diff 0 h, refl)
diff_bytes-zero diff [] (y ∷ ys) small hx hy e h = absurd (omega arith)
diff_bytes-zero diff (x ∷ xs) [] small hx hy e h = absurd (omega arith)
diff_bytes-zero diff (x ∷ xs) (y ∷ ys) small hx hy e h =
    let next : ℕ = bit_or diff (bit_xor x y) in
    let bound : next < 256 = bit_or-lt 8 diff (bit_xor x y) small (bit_xor-lt 8 x y hx.0 hy.0) in
    let (none, rest) = diff_bytes-zero (u8 next) xs ys (omega arith) hx.1 hy.1 (omega arith) h in
    let (before, here) = bit_or_zero diff (bit_xor x y) (omega arith) in
    (before, ap₂ ◌∷◌ (bit_xor_zero x y here) rest)
