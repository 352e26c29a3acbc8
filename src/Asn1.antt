-- ===== src/Asn1.antt =====
-- src/x509/asn1.c: the reader of DER elements, and the encoding of an ECDSA signature. Pointers are
-- valid, so the tests for NULL fall away. The value of an element, a pointer into the buffer with its
-- length, is given by the bytes that it shows.
pub mod Safe
mod Tests
pub mod Signature
use nano_dtls.Base.{
  ℕ, zero, suc, ◌+◌, ◌-◌, Bool, true, false, not, ◌&&◌, ◌||◌, ◌==◌, ◌!=◌, ltb, leb, [], ◌∷◌, ◌++◌,
  bit_and, bit_or, if◌then◌else◌,
}
use nano_dtls.Base.{
  Bytes, length, byte_at, get_or, take, drop, slice, replicate, u8, u64, ◌<<<◌, Result, ok, err,
  fault, ◌>>=◌, ◌>>◌, fail_if, truncated, bad_length, bad_arg, unsupported,
}

abbrev pub tag_integer : ℕ
tag_integer = 0x02

abbrev pub tag_bit_string : ℕ
tag_bit_string = 0x03

abbrev pub tag_sequence : ℕ
tag_sequence = 0x30

-- `nd_asn1_tlv`, without `value_len`, the length of `value`
pub record Tlv : Type 0 where
  pub tag : ℕ
  pub constructed : Bool
  pub header_len : ℕ
  pub value : Bytes

-- The loop over the bytes of a long length.
unfoldable pub length_bytes : ℕ → Bytes → ℕ → ℕ → Result ℕ
length_bytes zero buf pos value_len = ok value_len
length_bytes (suc n) buf pos value_len = do
  b ← byte_at buf pos
  length_bytes n buf (pos + 1) (u64 (bit_or (value_len <<< 8) b))

-- A length in the long form, of `nbytes` bytes.
unfoldable pub long_length : Bytes → ℕ → Result (ℕ × ℕ)
long_length buf nbytes = do
  fail_if (nbytes == 0) unsupported
  fail_if (ltb 8 nbytes) bad_length
  fail_if (ltb (length buf) (2 + nbytes)) truncated
  value_len ← length_bytes nbytes buf 2 0
  ok (2 + nbytes, value_len)

-- The length behind the tag, and the position behind it.
abbrev pub read_length : Bytes → ℕ → Result (ℕ × ℕ)
read_length buf len0 =
    let long = long_length buf (bit_and len0 0x7f) in
    if bit_and len0 0x80 == 0 then ok (2, len0) else long

-- `nd_asn1_parse_tlv`
unfoldable pub parse_tlv : Bytes → Result Tlv
parse_tlv buf = do
  fail_if (ltb (length buf) 2) truncated
  tag ← byte_at buf 0
  fail_if (bit_and tag 0x1f == 0x1f) unsupported
  len0 ← byte_at buf 1
  (pos, value_len) ← read_length buf len0
  fail_if (ltb (u64 (pos + value_len)) pos) bad_length
  fail_if (ltb (length buf) (u64 (pos + value_len))) bad_length
  ok (record {
    tag = tag;
    constructed = bit_and tag 0x20 != 0;
    header_len = pos;
    value = slice buf pos value_len;
  })

-- `nd_asn1_reader`
pub record TlvReader : Type 0 where
  pub buf : Bytes
  pub pos : ℕ

abbrev pub reader_init : Bytes → TlvReader
reader_init buf = record { buf = buf; pos = 0 }

abbrev pub reader_done : TlvReader → Bool
reader_done r = leb (length r.buf) r.pos

unfoldable pub reader_next : TlvReader → Result (Tlv × TlvReader)
reader_next r = do
  fail_if (leb (length r.buf) r.pos) truncated
  tlv ← parse_tlv (drop r.pos r.buf)
  ok (tlv, record r { pos = r.pos + (tlv.header_len + length tlv.value) })

-- `nd_asn1_read_uint_fixed`: the `out_len` bytes of the number.
unfoldable pub read_uint_fixed : Tlv → ℕ → Result Bytes
read_uint_fixed tlv out_len =
    let stripped = ltb 1 (length tlv.value) && get_or tlv.value 0 0 == 0 in
    let p = if stripped then drop 1 tlv.value else tlv.value in
    do
      fail_if (tlv.tag != tag_integer) bad_arg
      fail_if (length tlv.value == 0) bad_length
      fail_if (length p == 0 || ltb out_len (length p)) bad_length
      fail_if (not stripped && bit_and (get_or p 0 0) 0x80 != 0) unsupported
      ok (replicate (out_len - length p) 0 ++ p)

-- `nd_asn1_read_bitstring_bytes`
unfoldable pub read_bitstring_bytes : Tlv → Result Bytes
read_bitstring_bytes tlv = do
  fail_if (tlv.tag != tag_bit_string) bad_arg
  fail_if (ltb (length tlv.value) 1) bad_length
  fail_if (get_or tlv.value 0 0 != 0) unsupported
  ok (drop 1 tlv.value)

-- The first loop of `der_encode_uint32`: the zeros at the start, at most `n` of them.
abbrev pub leading : ℕ → Bytes → ℕ
leading zero bytes = 0
leading (suc n) [] = 0
leading (suc n) (b ∷ bytes) = let rest = leading n bytes in if b == 0 then suc rest else 0

-- The content of an INTEGER.
abbrev pub integer_content : Bytes → Bytes
integer_content val =
    let trimmed = drop (leading 31 val) val in
    if bit_and (get_or trimmed 0 0) 0x80 != 0 then 0 ∷ trimmed else trimmed

-- `der_encode_uint32`
abbrev pub der_encode_uint32 : Bytes → Bytes
der_encode_uint32 val = tag_integer ∷ u8 (length (integer_content val)) ∷ integer_content val

-- `nd_asn1_write_ecdsa_sig_value`
unfoldable pub write_ecdsa_sig_value : Bytes → Bytes → ℕ → Result Bytes
write_ecdsa_sig_value r s out_cap =
    let body = der_encode_uint32 r ++ der_encode_uint32 s in
    do
      fail_if (ltb 127 (length body)) bad_length
      fail_if (ltb out_cap (2 + length body)) bad_length
      ok (tag_sequence ∷ u8 (length body) ∷ body)

-- The two numbers of a signature, as `nd_certificate_verify_check` reads them.
unfoldable pub read_signature : Bytes → Result (Bytes × Bytes)
read_signature der = do
  seq_tlv ← parse_tlv der
  fail_if (seq_tlv.tag != tag_sequence) bad_arg
  (r_tlv, sr) ← reader_next (reader_init seq_tlv.value)
  (s_tlv, end) ← reader_next sr
  r ← read_uint_fixed r_tlv 32
  s ← read_uint_fixed s_tlv 32
  ok (r, s)
