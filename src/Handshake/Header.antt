-- ===== src/Handshake/Header.antt =====
-- `nd_handshake_parse` and `nd_handshake_serialize` of src/handshake/header.c: the 12-byte header
-- of a handshake fragment. Pointers are valid, so the tests for NULL fall away; what the parser
-- leaves in its outputs when it returns an error is not modelled.
pub mod Reads
pub mod RoundTrip
mod Tests
use nano_dtls.Base.{ℕ, ◌+◌, ◌-◌, ◌++◌, [], ◌∷◌, ltb, ◌!=◌, ◌||◌, Bytes, View, byte_at, length}
use nano_dtls.Base.{be16, be24, u8, ◌>>>◌}
use nano_dtls.Base.{Result, ok, ◌>>=◌, ◌>>◌, fail_if, truncated, bad_length, bad_arg}

abbrev pub hdr_len : ℕ
hdr_len = 12

-- `nd_handshake_hdr`
pub record HandshakeHdr : Type 0 where
  pub msg_type : ℕ
  pub length : ℕ
  pub message_seq : ℕ
  pub fragment_offset : ℕ
  pub fragment_length : ℕ

pub record Parsed : Type 0 where
  pub hdr : HandshakeHdr
  pub fragment : View

pub parse : Bytes → Result Parsed
parse buf = do
  fail_if (ltb (length buf) hdr_len) truncated
  b0 ← byte_at buf 0
  b1 ← byte_at buf 1
  b2 ← byte_at buf 2
  b3 ← byte_at buf 3
  b4 ← byte_at buf 4
  b5 ← byte_at buf 5
  b6 ← byte_at buf 6
  b7 ← byte_at buf 7
  b8 ← byte_at buf 8
  b9 ← byte_at buf 9
  b10 ← byte_at buf 10
  b11 ← byte_at buf 11
  fail_if (ltb (length buf - hdr_len) (be24 b9 b10 b11)) bad_length
  ok (record {
    hdr = record {
      msg_type = b0;
      length = be24 b1 b2 b3;
      message_seq = be16 b4 b5;
      fragment_offset = be24 b6 b7 b8;
      fragment_length = be24 b9 b10 b11;
    };
    fragment = record { offset = hdr_len; len = be24 b9 b10 b11 };
  })

-- The 12 bytes that are written before the fragment.
pub header_bytes : HandshakeHdr → Bytes
header_bytes hdr =
    hdr.msg_type
    ∷ u8 (hdr.length >>> 16)
    ∷ u8 (hdr.length >>> 8)
    ∷ u8 hdr.length
    ∷ u8 (hdr.message_seq >>> 8)
    ∷ u8 hdr.message_seq
    ∷ u8 (hdr.fragment_offset >>> 16)
    ∷ u8 (hdr.fragment_offset >>> 8)
    ∷ u8 hdr.fragment_offset
    ∷ u8 (hdr.fragment_length >>> 16)
    ∷ u8 (hdr.fragment_length >>> 8)
    ∷ u8 hdr.fragment_length
    ∷ []

-- The result is `out_buf[0 .. *out_len)`; `out_cap` is `out_buf_cap`.
pub serialize : HandshakeHdr → Bytes → ℕ → Result Bytes
serialize hdr fragment out_cap = do
  fail_if
      (ltb 0xffffff hdr.length
        || ltb 0xffffff hdr.fragment_offset
        || ltb 0xffffff hdr.fragment_length)
      bad_arg
  fail_if (hdr.fragment_length != length fragment) bad_arg
  fail_if (ltb out_cap (hdr_len + length fragment)) bad_length
  ok (header_bytes hdr ++ fragment)
