-- ===== src/Handshake/Header/Reads.antt =====
-- `nd_handshake_parse`: the fields that it reads, and that it reads them inside the buffer.
use nano_dtls.Base.{Result, ℕ, ◌+◌, ◌-◌, ◌^◌, ◌≤◌, ◌<◌, ◌≡◌, arith, ltb, if◌then◌else◌}
use nano_dtls.Base.{Bytes, IsBytes, Within, length, get_or, gets, be16, be24, be16_join, be24_join}
use nano_dtls.Base.{byte_at_in, byte_bound, be24_sum, ok, err, truncated, bad_length}
use nano_dtls.Handshake.Header.{HandshakeHdr, Parsed, hdr_len, parse, header_bytes}

-- The header read from a buffer that holds one.
abbrev pub hdr_at : Bytes → HandshakeHdr
hdr_at buf = record {
  msg_type = get_or buf 0 0;
  length = be24 (get_or buf 1 0) (get_or buf 2 0) (get_or buf 3 0);
  message_seq = be16 (get_or buf 4 0) (get_or buf 5 0);
  fragment_offset = be24 (get_or buf 6 0) (get_or buf 7 0) (get_or buf 8 0);
  fragment_length = be24 (get_or buf 9 0) (get_or buf 10 0) (get_or buf 11 0);
}

abbrev pub parsed_at : Bytes → Parsed
parsed_at buf = record {
  hdr = hdr_at buf;
  fragment = record { offset = hdr_len; len = (hdr_at buf).fragment_length };
}

-- Where the buffer holds a header, all twelve reads succeed.
pub parse_reads :
    (buf : Bytes)
    → hdr_len ≤ length buf
    → parse buf ≡ (
        if ltb (length buf - hdr_len) (hdr_at buf).fragment_length
        then err bad_length
        else ok (parsed_at buf))
unfolding parse
parse_reads buf h = ground (
  arith,
  byte_at_in buf 0,
  byte_at_in buf 1,
  byte_at_in buf 2,
  byte_at_in buf 3,
  byte_at_in buf 4,
  byte_at_in buf 5,
  byte_at_in buf 6,
  byte_at_in buf 7,
  byte_at_in buf 8,
  byte_at_in buf 9,
  byte_at_in buf 10,
  byte_at_in buf 11,
)

pub parse_short : (buf : Bytes) → length buf < hdr_len → parse buf ≡ err truncated
unfolding parse
parse_short buf h = ground arith

pub parse-ok :
    (buf : Bytes) (p : Parsed)
    → parse buf ≡ ok p
    → (hdr_len + (hdr_at buf).fragment_length ≤ length buf) × (p ≡ parsed_at buf)
parse-ok buf p h = (
  ground (arith, parse_reads buf, parse_short buf),
  ground (arith, parse_reads buf, parse_short buf),
)

-- The three fields that `nd_handshake_serialize` wants in 24 bits.
pub record Is24Bit (hdr : HandshakeHdr) : Type 0 where
  pub length_fits : hdr.length < 2 ^ 24
  pub offset_fits : hdr.fragment_offset < 2 ^ 24
  pub fragment_fits : hdr.fragment_length < 2 ^ 24

be24_at-lt :
    (buf : Bytes) (i j k : ℕ)
    → IsBytes buf
    → be24 (get_or buf i 0) (get_or buf j 0) (get_or buf k 0) < 2 ^ 24
be24_at-lt buf i j k bytes = omega (
  arith,
  be24_sum (get_or buf i 0) (get_or buf j 0) (get_or buf k 0) (byte_bound buf i bytes)
      (byte_bound buf j bytes) (byte_bound buf k bytes),
  byte_bound buf i bytes,
  byte_bound buf j bytes,
  byte_bound buf k bytes,
)

pub hdr_at-Is24Bit : (buf : Bytes) → IsBytes buf → Is24Bit (hdr_at buf)
hdr_at-Is24Bit buf bytes = record {
  length_fits = be24_at-lt buf 1 2 3 bytes;
  offset_fits = be24_at-lt buf 6 7 8 bytes;
  fragment_fits = be24_at-lt buf 9 10 11 bytes;
}

-- What each result of the parser says of the buffer.
abbrev pub InBounds : Bytes → Result Parsed → Type 0
InBounds buf (ok p) =
    Within buf p.fragment × (p.fragment.len ≡ p.hdr.fragment_length) × Is24Bit p.hdr
InBounds buf (err truncated) = length buf < hdr_len
InBounds buf (err bad_length) =
    (hdr_len ≤ length buf)
    × (length buf < hdr_len + be24 (get_or buf 9 0) (get_or buf 10 0) (get_or buf 11 0))
InBounds buf _ = ⊥

-- On no buffer of bytes does the parser read outside it. What it accepts has a fragment inside the
-- buffer, of the length in the header, and three fields of 24 bits; it fails only as truncated, on
-- a buffer shorter than a header, or with a bad length, where the fragment runs past the buffer.
parse_handshake-InBounds : (buf : Bytes) → IsBytes buf → InBounds buf (parse buf)
parse_handshake-InBounds buf bytes =
    ground (arith, parse_reads buf, parse_short buf, hdr_at-Is24Bit buf bytes)

-- The bytes of the header that was read are those of the buffer.
pub header_bytes-hdr_at :
    (buf : Bytes) → IsBytes buf → header_bytes (hdr_at buf) ≡ gets hdr_len 0 buf
unfolding header_bytes
header_bytes-hdr_at buf bytes = ground (
  arith,
  be16_join (get_or buf 4 0) (get_or buf 5 0) (byte_bound buf 4 bytes) (byte_bound buf 5 bytes),
  be24_join (get_or buf 1 0) (get_or buf 2 0) (get_or buf 3 0) (byte_bound buf 1 bytes)
      (byte_bound buf 2 bytes) (byte_bound buf 3 bytes),
  be24_join (get_or buf 6 0) (get_or buf 7 0) (get_or buf 8 0) (byte_bound buf 6 bytes)
      (byte_bound buf 7 bytes) (byte_bound buf 8 bytes),
  be24_join (get_or buf 9 0) (get_or buf 10 0) (get_or buf 11 0) (byte_bound buf 9 bytes)
      (byte_bound buf 10 bytes) (byte_bound buf 11 bytes),
)
