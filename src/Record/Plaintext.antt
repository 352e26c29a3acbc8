-- ===== src/Record/Plaintext.antt =====
-- `nd_plaintext_parse` and `nd_plaintext_serialize` of src/record.c: the 13-byte DTLSPlaintext
-- header. Pointers are valid, so the tests for NULL fall away; what the parser leaves in its
-- outputs when it returns an error is not modelled.
pub mod Reads
pub mod RoundTrip
mod Tests
use nano_dtls.Base.{ℕ, ◌+◌, ◌-◌, ◌^◌, Bool, ◌++◌, List, [], ◌∷◌, bit_or, ltb, if◌then◌else◌}
use nano_dtls.Base.{Bytes, View, byte_at, length, be16, u8, ◌<<<◌, ◌>>>◌}
use nano_dtls.Base.{Result, ok, ◌>>=◌, ◌>>◌, fail_if, truncated, bad_length, bad_arg}

abbrev pub hdr_len : ℕ
hdr_len = 13

-- `nd_plaintext_hdr`
pub record PlaintextHdr : Type 0 where
  pub type : ℕ
  pub legacy_version : ℕ
  pub epoch : ℕ
  pub sequence_number : ℕ
  pub length : ℕ

pub record Parsed : Type 0 where
  pub hdr : PlaintextHdr
  pub fragment : View

-- Six bytes, the first the highest, joined by `|` of shifts.
pub be48 : ℕ → ℕ → ℕ → ℕ → ℕ → ℕ → ℕ
be48 a b c d e f =
    bit_or (bit_or (bit_or (bit_or (bit_or (a <<< 40) (b <<< 32)) (c <<< 24)) (d <<< 16)) (e <<< 8))
      f

pub parse : Bytes → Result Parsed
parse buf = do
  fail_if (ltb (length buf) hdr_len) truncated
  b0 ← byte_at buf 0
  b1 ← byte_at buf 1
  b2 ← byte_at buf 2
  b3 ← byte_at buf 3
  b4 ← byte_at buf 4
  b5 ← byte_at buf 5
  b6 ← byte_at buf 6
  b7 ← byte_at buf 7
  b8 ← byte_at buf 8
  b9 ← byte_at buf 9
  b10 ← byte_at buf 10
  b11 ← byte_at buf 11
  b12 ← byte_at buf 12
  fail_if (ltb (length buf - hdr_len) (be16 b11 b12)) bad_length
  ok (record {
    hdr = record {
      type = b0;
      legacy_version = be16 b1 b2;
      epoch = be16 b3 b4;
      sequence_number = be48 b5 b6 b7 b8 b9 b10;
      length = be16 b11 b12;
    };
    fragment = record { offset = hdr_len; len = be16 b11 b12 };
  })

-- The 13 bytes that are written before a fragment of `n` bytes.
pub header_bytes : PlaintextHdr → ℕ → Bytes
header_bytes hdr n =
    hdr.type
    ∷ u8 (hdr.legacy_version >>> 8)
    ∷ u8 hdr.legacy_version
    ∷ u8 (hdr.epoch >>> 8)
    ∷ u8 hdr.epoch
    ∷ u8 (hdr.sequence_number >>> 40)
    ∷ u8 (hdr.sequence_number >>> 32)
    ∷ u8 (hdr.sequence_number >>> 24)
    ∷ u8 (hdr.sequence_number >>> 16)
    ∷ u8 (hdr.sequence_number >>> 8)
    ∷ u8 hdr.sequence_number
    ∷ u8 (n >>> 8)
    ∷ u8 n
    ∷ []

-- The result is `out_buf[0 .. *out_len)`; `out_cap` is `out_buf_cap`.
pub serialize : PlaintextHdr → Bytes → ℕ → Result Bytes
serialize hdr fragment out_cap = do
  let n = length fragment
  fail_if (ltb 0xffff_ffff_ffff hdr.sequence_number) bad_arg
  fail_if (ltb 0xffff n) bad_arg
  fail_if (ltb out_cap (hdr_len + n)) bad_length
  ok (header_bytes hdr n ++ fragment)
