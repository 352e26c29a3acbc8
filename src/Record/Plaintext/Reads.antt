-- ===== src/Record/Plaintext/Reads.antt =====
-- `nd_plaintext_parse`: the fields that it reads, and that it reads them inside the buffer.
use nano_dtls.Base.{Result, ℕ, ◌+◌, ◌-◌, ◌*◌, ◌^◌, ◌≤◌, ◌<◌, ◌≡◌, ◌≢◌, refl, arith, ltb}
use nano_dtls.Base.{Bytes, IsBytes, Within, length, get_or, be16}
use nano_dtls.Base.{
  gets, be16_join, byte_bound, bit_or_sum, if◌then◌else◌, u8, ◌>>>◌, ◌∙◌, ◌<<<◌, ok, err, fault,
  truncated, bad_length, byte_at_in,
}
use nano_dtls.Record.Plaintext.{PlaintextHdr, Parsed, hdr_len, be48, parse, header_bytes}

pub be48_sum :
    (a b c d e f : ℕ)
    → a < 256
    → b < 256
    → c < 256
    → d < 256
    → e < 256
    → f < 256
    → be48 a b c d e f ≡ a * 2 ^ 40 + b * 2 ^ 32 + c * 2 ^ 24 + d * 2 ^ 16 + e * 2 ^ 8 + f
unfolding be48
be48_sum a b c d e f ha hb hc hd he hf =
    rw
      (
        bit_or_sum 40 a (a <<< 40) (b <<< 32) refl (omega arith),
        bit_or_sum 32 (a * 2 ^ 8 + b) (a <<< 40 + b <<< 32) (c <<< 24) (omega arith) (omega arith),
        bit_or_sum 24 (a * 2 ^ 16 + b * 2 ^ 8 + c) (a <<< 40 + b <<< 32 + c <<< 24) (d <<< 16)
            (omega arith) (omega arith),
        bit_or_sum 16 (a * 2 ^ 24 + b * 2 ^ 16 + c * 2 ^ 8 + d)
            (a <<< 40 + b <<< 32 + c <<< 24 + d <<< 16) (e <<< 8) (omega arith) (omega arith),
        bit_or_sum 8 (a * 2 ^ 32 + b * 2 ^ 24 + c * 2 ^ 16 + d * 2 ^ 8 + e)
            (a <<< 40 + b <<< 32 + c <<< 24 + d <<< 16 + e <<< 8) f (omega arith) (omega arith),
      )
      refl

pub be48_split :
    (v : ℕ)
    → v < 2 ^ 48
    → be48 (u8 (v >>> 40)) (u8 (v >>> 32)) (u8 (v >>> 24)) (u8 (v >>> 16)) (u8 (v >>> 8)) (u8 v) ≡ v
be48_split v h =
    be48_sum (u8 (v >>> 40)) (u8 (v >>> 32)) (u8 (v >>> 24)) (u8 (v >>> 16)) (u8 (v >>> 8)) (u8 v)
      (omega arith) (omega arith) (omega arith) (omega arith) (omega arith) (omega arith)
    ∙ omega arith

be48_join :
    (a b c d e f : ℕ)
    → a < 256
    → b < 256
    → c < 256
    → d < 256
    → e < 256
    → f < 256
    → let v = be48 a b c d e f in
      (u8 (v >>> 40) ≡ a)
      × (u8 (v >>> 32) ≡ b)
      × (u8 (v >>> 24) ≡ c)
      × (u8 (v >>> 16) ≡ d)
      × (u8 (v >>> 8) ≡ e)
      × (u8 v ≡ f)
be48_join a b c d e f ha hb hc hd he hf = omega (arith, be48_sum a b c d e f ha hb hc hd he hf)

-- The header read from a buffer that holds one.
abbrev pub hdr_at : Bytes → PlaintextHdr
hdr_at buf = record {
  type = get_or buf 0 0;
  legacy_version = be16 (get_or buf 1 0) (get_or buf 2 0);
  epoch = be16 (get_or buf 3 0) (get_or buf 4 0);
  sequence_number =
      be48 (get_or buf 5 0) (get_or buf 6 0) (get_or buf 7 0) (get_or buf 8 0) (get_or buf 9 0)
        (get_or buf 10 0);
  length = be16 (get_or buf 11 0) (get_or buf 12 0);
}

-- Where the buffer holds a header, all thirteen reads succeed.
pub parse_reads :
    (buf : Bytes)
    → hdr_len ≤ length buf
    → parse buf ≡ (
        if ltb (length buf - hdr_len) (hdr_at buf).length
        then err bad_length
        else ok (record {
          hdr = hdr_at buf;
          fragment = record { offset = hdr_len; len = (hdr_at buf).length };
        }))
unfolding parse
parse_reads buf h = ground (
  arith,
  byte_at_in buf 0,
  byte_at_in buf 1,
  byte_at_in buf 2,
  byte_at_in buf 3,
  byte_at_in buf 4,
  byte_at_in buf 5,
  byte_at_in buf 6,
  byte_at_in buf 7,
  byte_at_in buf 8,
  byte_at_in buf 9,
  byte_at_in buf 10,
  byte_at_in buf 11,
  byte_at_in buf 12,
)

pub parse_short : (buf : Bytes) → length buf < hdr_len → parse buf ≡ err truncated
unfolding parse
parse_short buf h = ground arith

parse-ne-fault : (buf : Bytes) → parse buf ≢ fault
parse-ne-fault buf = ground (arith, parse_reads buf, parse_short buf)

parse-Within : (buf : Bytes) (p : Parsed) → parse buf ≡ ok p → Within buf p.fragment
parse-Within buf p h = ground (arith, parse_reads buf, parse_short buf)

-- What each result of the parser says of the buffer.
abbrev pub InBounds : Bytes → Result Parsed → Type 0
InBounds buf (ok p) = Within buf p.fragment × (p.fragment.len ≡ p.hdr.length)
InBounds buf (err truncated) = length buf < hdr_len
InBounds buf (err bad_length) =
    (hdr_len ≤ length buf) × (length buf < hdr_len + be16 (get_or buf 11 0) (get_or buf 12 0))
InBounds buf _ = ⊥

-- On no input does the parser read outside the buffer. A fragment that it returns lies inside the
-- buffer and has the length in the header; it fails only as truncated, on a buffer shorter than a
-- header, or with a bad length, where the length in the header runs past the buffer.
parse_plaintext-InBounds : (buf : Bytes) → InBounds buf (parse buf)
parse_plaintext-InBounds buf = ground (arith, parse_reads buf, parse_short buf)

pub parse-ok :
    (buf : Bytes) (p : Parsed)
    → parse buf ≡ ok p
    → (hdr_len + (hdr_at buf).length ≤ length buf)
      × (p ≡ record {
        hdr = hdr_at buf;
        fragment = record { offset = hdr_len; len = (hdr_at buf).length };
      })
parse-ok buf p h = (
  ground (arith, parse_reads buf, parse_short buf),
  ground (arith, parse_reads buf, parse_short buf),
)

-- The bytes of the header that was read are those of the buffer.
pub header_bytes-hdr_at :
    (buf : Bytes) → IsBytes buf → header_bytes (hdr_at buf) (hdr_at buf).length ≡ gets hdr_len 0 buf
unfolding header_bytes
header_bytes-hdr_at buf bytes = ground (
  arith,
  byte_bound buf 0 bytes,
  be16_join (get_or buf 1 0) (get_or buf 2 0) (byte_bound buf 1 bytes) (byte_bound buf 2 bytes),
  be16_join (get_or buf 3 0) (get_or buf 4 0) (byte_bound buf 3 bytes) (byte_bound buf 4 bytes),
  be16_join (get_or buf 11 0) (get_or buf 12 0) (byte_bound buf 11 bytes) (byte_bound buf 12 bytes),
  be48_join (get_or buf 5 0) (get_or buf 6 0) (get_or buf 7 0) (get_or buf 8 0) (get_or buf 9 0)
      (get_or buf 10 0) (byte_bound buf 5 bytes) (byte_bound buf 6 bytes) (byte_bound buf 7 bytes)
      (byte_bound buf 8 bytes) (byte_bound buf 9 bytes) (byte_bound buf 10 bytes),
)

pub seq_at-lt : (buf : Bytes) → IsBytes buf → (hdr_at buf).sequence_number < 2 ^ 48
seq_at-lt buf bytes = omega (
  arith,
  be48_sum (get_or buf 5 0) (get_or buf 6 0) (get_or buf 7 0) (get_or buf 8 0) (get_or buf 9 0)
      (get_or buf 10 0) (byte_bound buf 5 bytes) (byte_bound buf 6 bytes) (byte_bound buf 7 bytes)
      (byte_bound buf 8 bytes) (byte_bound buf 9 bytes) (byte_bound buf 10 bytes),
  byte_bound buf 5 bytes,
  byte_bound buf 6 bytes,
  byte_bound buf 7 bytes,
  byte_bound buf 8 bytes,
  byte_bound buf 9 bytes,
  byte_bound buf 10 bytes,
)
