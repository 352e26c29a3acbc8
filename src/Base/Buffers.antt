-- ===== src/Base/Buffers.antt =====
-- Buffers of `uint8_t` as lists of numbers, reads that fault outside the buffer, and the
-- big-endian fields that every wire format here is made of.
use Prim.Native.Nat.{ℕ, zero, suc, ◌+◌, ◌*◌, ◌%◌, ◌^◌, ◌≤◌, ◌<◌, bit_or}
use mathlib.Core.Path.{◌≡◌, refl, sym, ap, ◌∙◌}
use mathlib.Core.List.{List, [], ◌∷◌, ◌++◌}
use native.Mathlib.Omega.{arith}
use nano_dtls.Base.Lists.{length, get_or, take, drop, slice, length-take, length-drop}
use nano_dtls.Base.Outcomes.{Result, ok, fault}
use nano_dtls.Base.Bits.{◌<<<◌, ◌>>>◌, bit_or_sum}

abbrev pub Bytes : Type 0
Bytes = List ℕ

-- Every element is a byte.
abbrev pub IsBytes : Bytes → Type 0
IsBytes [] = Unit {0}
IsBytes (x ∷ xs) = (x < 256) × IsBytes xs

-- `buf[i]`, a fault outside the buffer.
unfoldable pub byte_at : Bytes → ℕ → Result ℕ
byte_at [] i = fault
byte_at (x ∷ xs) zero = ok x
byte_at (x ∷ xs) (suc i) = byte_at xs i

pub byte_at_in : (buf : Bytes) (i : ℕ) → i < length buf → byte_at buf i ≡ ok (get_or buf i 0)
unfolding byte_at
byte_at_in [] i h = absurd (omega arith)
byte_at_in (x ∷ xs) zero h = refl
byte_at_in (x ∷ xs) (suc i) h = byte_at_in xs i (omega arith)

pub byte_bound : (buf : Bytes) (i : ℕ) → IsBytes buf → get_or buf i 0 < 256
byte_bound [] i h = omega arith
byte_bound (x ∷ xs) zero h = h.0
byte_bound (x ∷ xs) (suc i) h = byte_bound xs i h.1

pub IsBytes-append : (xs ys : Bytes) → IsBytes xs → IsBytes ys → IsBytes (xs ++ ys)
IsBytes-append [] ys h k = k
IsBytes-append (x ∷ xs) ys h k = (h.0, IsBytes-append xs ys h.1 k)

pub IsBytes-drop : (n : ℕ) (xs : Bytes) → IsBytes xs → IsBytes (drop n xs)
IsBytes-drop zero xs h = h
IsBytes-drop (suc n) [] h = h
IsBytes-drop (suc n) (x ∷ xs) h = IsBytes-drop n xs h.1

pub IsBytes-take : (n : ℕ) (xs : Bytes) → IsBytes xs → IsBytes (take n xs)
IsBytes-take zero xs h = tt
IsBytes-take (suc n) [] h = h
IsBytes-take (suc n) (x ∷ xs) h = (h.0, IsBytes-take n xs h.1)

-- The casts of C.
abbrev pub u8 : ℕ → ℕ
u8 n = n % 2 ^ 8

abbrev pub u16 : ℕ → ℕ
u16 n = n % 2 ^ 16

abbrev pub u32 : ℕ → ℕ
u32 n = n % 2 ^ 32

abbrev pub u64 : ℕ → ℕ
u64 n = n % 2 ^ 64

-- `(uint16_t)((a << 8) | b)`
unfoldable pub be16 : ℕ → ℕ → ℕ
be16 a b = u16 (bit_or (a <<< 8) b)

-- `((uint32_t)a << 16) | ((uint32_t)b << 8) | (uint32_t)c`
unfoldable pub be24 : ℕ → ℕ → ℕ → ℕ
be24 a b c = bit_or (bit_or (a <<< 16) (b <<< 8)) c

pub be16-lt : (a b : ℕ) → be16 a b < 2 ^ 16
unfolding be16
be16-lt a b = omega arith

pub be16_sum : (a b : ℕ) → a < 256 → b < 256 → be16 a b ≡ a * 256 + b
unfolding be16
be16_sum a b ha hb = omega (arith, bit_or_sum 8 a (a <<< 8) b refl (omega arith))

pub be24_sum : (a b c : ℕ) → a < 256 → b < 256 → c < 256 → be24 a b c ≡ a * 65536 + b * 256 + c
unfolding be24
be24_sum a b c ha hb hc =
    rw (bit_or_sum 16 a (a <<< 16) (b <<< 8) refl (omega arith))
      (omega (arith, bit_or_sum 8 (a * 256 + b) (a <<< 16 + b <<< 8) c (omega arith) (omega arith)))

-- A field written high byte first reads back.
pub be16_split : (v : ℕ) → v < 2 ^ 16 → be16 (u8 (v >>> 8)) (u8 v) ≡ v
be16_split v h = omega (arith, be16_sum (u8 (v >>> 8)) (u8 v) (omega arith) (omega arith))

pub be24_split : (v : ℕ) → v < 2 ^ 24 → be24 (u8 (v >>> 16)) (u8 (v >>> 8)) (u8 v) ≡ v
be24_split v h = omega (
  arith,
  be24_sum (u8 (v >>> 16)) (u8 (v >>> 8)) (u8 v) (omega arith) (omega arith) (omega arith),
)

-- The bytes of a field are those that it was read from.
pub be16_join : (a b : ℕ) → a < 256 → b < 256 → (u8 (be16 a b >>> 8) ≡ a) × (u8 (be16 a b) ≡ b)
be16_join a b ha hb = omega (arith, be16_sum a b ha hb)

pub be24_join :
    (a b c : ℕ)
    → a < 256
    → b < 256
    → c < 256
    → (u8 (be24 a b c >>> 16) ≡ a) × (u8 (be24 a b c >>> 8) ≡ b) × (u8 (be24 a b c) ≡ c)
be24_join a b c ha hb hc = omega (arith, be24_sum a b c ha hb hc)

-- `n` bytes of a buffer one by one, from index `i` on.
abbrev pub gets : ℕ → ℕ → Bytes → Bytes
gets zero i buf = []
gets (suc n) i buf = get_or buf i 0 ∷ gets n (suc i) buf

gets-cons : (n i x : ℕ) (xs : Bytes) → gets n (suc i) (x ∷ xs) ≡ gets n i xs
gets-cons zero i x xs = refl
gets-cons (suc n) i x xs = ap (λ t. get_or xs i 0 ∷ t) (gets-cons n (suc i) x xs)

pub take-eq-gets : (n : ℕ) (buf : Bytes) → n ≤ length buf → take n buf ≡ gets n 0 buf
take-eq-gets zero buf h = refl
take-eq-gets (suc n) [] h = absurd (omega arith)
take-eq-gets (suc n) (x ∷ xs) h =
    ap (λ t. x ∷ t) (take-eq-gets n xs (omega arith) ∙ sym (gets-cons n 0 x xs))

-- A pointer into a buffer that was passed in, with the number of bytes it may be read for.
pub record View : Type 0 where
  pub offset : ℕ
  pub len : ℕ

-- The bytes that a view shows.
abbrev pub bytes_of : Bytes → View → Bytes
bytes_of buf v = slice buf v.offset v.len

-- The view lies inside the buffer.
abbrev pub Within : Bytes → View → Type 0
Within buf v = v.offset + v.len ≤ length buf

pub length-bytes_of : (buf : Bytes) (v : View) → Within buf v → length (bytes_of buf v) ≡ v.len
length-bytes_of buf v h =
    omega (arith, length-take v.len (drop v.offset buf), length-drop v.offset buf)
