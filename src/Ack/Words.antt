-- ===== src/Ack/Words.antt =====
-- `put_u64` and `get_u64` invert one another.
use nano_dtls.Base.{ℕ, ◌+◌, ◌*◌, ◌^◌, ◌≤◌, ◌<◌, ◌≡◌, sym, ap, ◌∙◌, arith, ◌++◌}
use nano_dtls.Base.{
  Bytes, IsBytes, byte_at, byte_at_in, byte_bound, get_or, length, bit_or_sum, u8, u64, ◌<<<◌,
  ◌>>>◌, ok, take, take-eq-gets,
}
use nano_dtls.Ack.{push_byte, put_u64, get_u64}

push_byte_sum : (v b : ℕ) → v < 2 ^ 56 → b < 256 → push_byte v b ≡ v * 256 + b
push_byte_sum v b hv hb = omega (arith, bit_or_sum 8 v (u64 (v <<< 8)) b (omega arith) hb)

-- The number of eight bytes, the first the highest.
abbrev pub be64 : ℕ → ℕ → ℕ → ℕ → ℕ → ℕ → ℕ → ℕ → ℕ
be64 a b c d e f g h =
    push_byte
      (push_byte
        (push_byte (push_byte (push_byte (push_byte (push_byte (push_byte 0 a) b) c) d) e) f) g)
      h

be64_sum :
    (a b c d e f g h : ℕ)
    → a < 256
    → b < 256
    → c < 256
    → d < 256
    → e < 256
    → f < 256
    → g < 256
    → h < 256
    → be64 a b c d e f g h
      ≡ a * 2 ^ 56 + b * 2 ^ 48 + c * 2 ^ 40 + d * 2 ^ 32 + e * 2 ^ 24 + f * 2 ^ 16 + g * 2 ^ 8 + h
be64_sum a b c d e f g h ha hb hc hd he hf hg hh =
    rw
      (
        push_byte_sum 0 a (omega arith) ha,
        push_byte_sum (0 * 256 + a) b (omega arith) hb,
        push_byte_sum ((0 * 256 + a) * 256 + b) c (omega arith) hc,
        push_byte_sum (((0 * 256 + a) * 256 + b) * 256 + c) d (omega arith) hd,
        push_byte_sum ((((0 * 256 + a) * 256 + b) * 256 + c) * 256 + d) e (omega arith) he,
        push_byte_sum (((((0 * 256 + a) * 256 + b) * 256 + c) * 256 + d) * 256 + e) f (omega arith)
            hf,
        push_byte_sum ((((((0 * 256 + a) * 256 + b) * 256 + c) * 256 + d) * 256 + e) * 256 + f) g
            (omega arith) hg,
        push_byte_sum
            (((((((0 * 256 + a) * 256 + b) * 256 + c) * 256 + d) * 256 + e) * 256 + f) * 256 + g) h
            (omega arith) hh,
      )
      (omega arith)

be64_join :
    (a b c d e f g h : ℕ)
    → a < 256
    → b < 256
    → c < 256
    → d < 256
    → e < 256
    → f < 256
    → g < 256
    → h < 256
    → let v = be64 a b c d e f g h in
      (u8 (v >>> 56) ≡ a)
      × (u8 (v >>> 48) ≡ b)
      × (u8 (v >>> 40) ≡ c)
      × (u8 (v >>> 32) ≡ d)
      × (u8 (v >>> 24) ≡ e)
      × (u8 (v >>> 16) ≡ f)
      × (u8 (v >>> 8) ≡ g)
      × (u8 (v >>> 0) ≡ h)
be64_join a b c d e f g h ha hb hc hd he hf hg hh =
    rw (be64_sum a b c d e f g h ha hb hc hd he hf hg hh) (omega arith)

-- What was written reads back, whatever follows it.
pub get_u64-put_u64 : (v : ℕ) (rest : Bytes) → v < 2 ^ 64 → get_u64 (put_u64 v ++ rest) ≡ ok v
unfolding get_u64 put_u64 byte_at
get_u64-put_u64 v rest h = ap ok (
    be64_sum (u8 (v >>> 56)) (u8 (v >>> 48)) (u8 (v >>> 40)) (u8 (v >>> 32)) (u8 (v >>> 24))
      (u8 (v >>> 16)) (u8 (v >>> 8)) (u8 (v >>> 0)) (omega arith) (omega arith) (omega arith)
      (omega arith) (omega arith) (omega arith) (omega arith) (omega arith)
    ∙ omega arith)

abbrev pub u64_at : Bytes → ℕ
u64_at buf =
    be64 (get_or buf 0 0) (get_or buf 1 0) (get_or buf 2 0) (get_or buf 3 0) (get_or buf 4 0)
      (get_or buf 5 0) (get_or buf 6 0) (get_or buf 7 0)

-- Eight bytes in the buffer are enough to read.
pub get_u64_reads : (buf : Bytes) → 8 ≤ length buf → get_u64 buf ≡ ok (u64_at buf)
unfolding get_u64
get_u64_reads buf h = ground (
  arith,
  byte_at_in buf 0,
  byte_at_in buf 1,
  byte_at_in buf 2,
  byte_at_in buf 3,
  byte_at_in buf 4,
  byte_at_in buf 5,
  byte_at_in buf 6,
  byte_at_in buf 7,
)

-- What was read writes the same bytes.
pub put_u64-u64_at :
    (buf : Bytes) → IsBytes buf → 8 ≤ length buf → put_u64 (u64_at buf) ≡ take 8 buf
unfolding put_u64
put_u64-u64_at buf bytes h =
    ground (
      arith,
      be64_join (get_or buf 0 0) (get_or buf 1 0) (get_or buf 2 0) (get_or buf 3 0) (get_or buf 4 0)
          (get_or buf 5 0) (get_or buf 6 0) (get_or buf 7 0) (byte_bound buf 0 bytes)
          (byte_bound buf 1 bytes) (byte_bound buf 2 bytes) (byte_bound buf 3 bytes)
          (byte_bound buf 4 bytes) (byte_bound buf 5 bytes) (byte_bound buf 6 bytes)
          (byte_bound buf 7 bytes),
    )
    ∙ sym (take-eq-gets 8 buf h)
