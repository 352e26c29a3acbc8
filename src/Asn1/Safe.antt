-- ===== src/Asn1/Safe.antt =====
-- That `nd_asn1_parse_tlv` stays inside its buffer.
use nano_dtls.Base.{
  ℕ, zero, suc, ◌+◌, ◌^◌, ◌≤◌, ◌<◌, ◌≡◌, ◌≢◌, refl, sym, ◌∙◌, arith, Bool, true, false, ◌==◌, ltb,
  bit_and, bit_or, if◌then◌else◌,
}
use nano_dtls.Base.{
  Bytes, IsBytes, length, byte_at, byte_at_in, byte_bound, get_or, slice, u64, ◌<<<◌, Result, ok,
  err, fault, ok-injective, bind-all, guard-all, bind-returns, truncated, bad_length, unsupported,
}
use mathlib.Core.Path.{subst}
use nano_dtls.Asn1.{Tlv, length_bytes, long_length, read_length, parse_tlv}

-- The element lies in the buffer with all of the length that it declares.
abbrev pub Inside : Bytes → Result Tlv → Type 0
Inside buf (ok t) =
    (value_len : ℕ) × (read_length buf (get_or buf 1 0) ≡ ok (t.header_len, value_len))
    × (t.header_len + value_len ≤ length buf)
    × (t.value ≡ slice buf t.header_len value_len)
Inside buf (err e) = Unit
Inside buf fault = ⊥

length_bytes-ok :
    (n : ℕ) (buf : Bytes) (pos value_len : ℕ)
    → pos + n ≤ length buf
    → value_len < 2 ^ 64
    → (v : ℕ) × (length_bytes n buf pos value_len ≡ ok v) × (v < 2 ^ 64)
unfolding length_bytes
length_bytes-ok zero buf pos value_len inside small = (value_len, refl, small)
length_bytes-ok (suc n) buf pos value_len inside small =
    let next = u64 (bit_or (value_len <<< 8) (get_or buf pos 0)) in
    let (v, e, h) = length_bytes-ok n buf (pos + 1) next (omega arith) (omega arith) in
    (v, bind-returns _ (byte_at_in buf pos (omega arith)) e, h)

-- The bounds on the position and on the length that were read.
abbrev Measured : Result (ℕ × ℕ) → Type 0
Measured (ok (pos, v)) = (2 ≤ pos) × (pos ≤ 9 + 1) × (v < 2 ^ 64)
Measured (err e) = Unit
Measured fault = ⊥

long_length-Measured : (buf : Bytes) (nbytes : ℕ) → Measured (long_length buf nbytes)
unfolding long_length
long_length-Measured buf nbytes = guard-all Measured (nbytes == 0) unsupported _ tt λ _.
    guard-all Measured (ltb 8 nbytes) bad_length _ tt λ few.
      guard-all Measured (ltb (length buf) (2 + nbytes)) truncated _ tt λ inside.
        let (v, e, h) = length_bytes-ok nbytes buf 2 0 (ground (arith, inside)) (omega arith) in
        subst Measured (sym (bind-returns (λ value_len. ok (2 + nbytes, value_len)) e refl))
          (omega arith, ground (arith, few), h)

read_length-Measured : (buf : Bytes) (len0 : ℕ) → len0 < 256 → Measured (read_length buf len0)
read_length-Measured buf len0 byte = split (bit_and len0 0x80 == 0)
  where
    split : (b : Bool) → Measured (if b then ok (2, len0) else long_length buf (bit_and len0 0x7f))
    split true = (omega arith, omega arith, omega arith)
    split false = long_length-Measured buf (bit_and len0 0x7f)

Measured-returns : (m : Result (ℕ × ℕ)) → Measured m → m ≢ fault
Measured-returns (ok x) h same = absurd (ground (arith, same))
Measured-returns (err e) h same = absurd (ground (arith, same))
Measured-returns fault h same = h

byte_at-returns : (buf : Bytes) (i : ℕ) → i < length buf → byte_at buf i ≢ fault
byte_at-returns buf i h same = absurd (ground (arith, sym (byte_at_in buf i h) ∙ same))

-- In a buffer of bytes, shorter than 2 ^ 64, the element that is parsed lies inside the buffer with
-- all of the length that it declares, whatever the length bytes are, and no byte outside is read.
pub parse_tlv-Inside :
    (buf : Bytes) → IsBytes buf → length buf < 2 ^ 64 → Inside buf (parse_tlv buf)
unfolding parse_tlv
parse_tlv-Inside buf bytes small =
    guard-all (Inside buf) (ltb (length buf) 2) truncated _ tt λ long.
      bind-all (Inside buf) (byte_at buf 0) _ (byte_at-returns buf 0 (ground (arith, long)))
        (λ e. tt)
        λ tag _. guard-all (Inside buf) (bit_and tag 0x1f == 0x1f) unsupported _ tt λ _.
          bind-all (Inside buf) (byte_at buf 1) _ (byte_at-returns buf 1 (ground (arith, long)))
            (λ e. tt)
            λ len0 h.
              let first : get_or buf 1 0 ≡ len0 =
                ok-injective _ _ (sym (byte_at_in buf 1 (ground (arith, long))) ∙ h) in
              let measured : Measured (read_length buf len0) =
                read_length-Measured buf len0 (omega (arith, byte_bound buf 1 bytes)) in
              bind-all (Inside buf) (read_length buf len0) _ (Measured-returns _ measured) (λ e. tt)
                λ read same.
                  let (least, most, width) : Measured (ok read) = subst Measured same measured in
                  guard-all (Inside buf) (ltb (u64 (read.0 + read.1)) read.0) bad_length _ tt
                    λ forward.
                      guard-all (Inside buf) (ltb (length buf) (u64 (read.0 + read.1))) bad_length _
                        tt
                        λ fits. (
                          read.1,
                          rw first same,
                          ground (arith, forward, fits, least, most, width),
                          refl,
                        )
