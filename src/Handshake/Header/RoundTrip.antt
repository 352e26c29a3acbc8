-- ===== src/Handshake/Header/RoundTrip.antt =====
-- `nd_handshake_parse` and `nd_handshake_serialize` invert one another.
use nano_dtls.Base.{u8, Result, ℕ, ◌+◌, ◌^◌, ◌≤◌, ◌<◌, ◌≡◌, refl, sym, ap, ◌∙◌, ◌++◌, arith}
use nano_dtls.Base.{Bytes, IsBytes, bytes_of, length, take, gets, slice, length-bytes_of}
use nano_dtls.Base.{length-append, take-append, take-add, take-eq-gets, be16_split, be24_split}
use nano_dtls.Base.{ok, err, bad_length, bad_arg}
use mathlib.Core.List.{append_assoc}
use nano_dtls.Handshake.Header.{HandshakeHdr, Parsed, hdr_len, parse, header_bytes, serialize}
use nano_dtls.Handshake.Header.Reads.{
  hdr_at, parse_reads, parse-ok, header_bytes-hdr_at, Is24Bit, hdr_at-Is24Bit,
}

-- What the serializer accepts: three fields of 24 bits, the right length, room in the output.
pub record Accepts (hdr : HandshakeHdr) (fragment : Bytes) (out_cap : ℕ) : Type 0 where
  pub fits : Is24Bit hdr
  pub same_length : hdr.fragment_length ≡ length fragment
  pub room : hdr_len + length fragment ≤ out_cap

pub serialize-Accepts :
    (hdr : HandshakeHdr) (fragment : Bytes) (out_cap : ℕ)
    → Accepts hdr fragment out_cap
    → serialize hdr fragment out_cap ≡ ok (header_bytes hdr ++ fragment)
unfolding serialize
serialize-Accepts hdr fragment out_cap a = ground arith

pub serialize-ok :
    (hdr : HandshakeHdr) (fragment : Bytes) (out_cap : ℕ) (out : Bytes)
    → serialize hdr fragment out_cap ≡ ok out
    → Accepts hdr fragment out_cap × (out ≡ header_bytes hdr ++ fragment)
unfolding serialize
serialize-ok hdr fragment out_cap out h = (
  record {
    fits = record {
      length_fits = ground arith;
      offset_fits = ground arith;
      fragment_fits = ground arith;
    };
    same_length = ground arith;
    room = ground arith;
  },
  ground arith,
)

parse_header :
    (hdr : HandshakeHdr) (fragment rest : Bytes)
    → hdr.message_seq < 2 ^ 16
    → Is24Bit hdr
    → hdr.fragment_length ≡ length fragment
    → parse (header_bytes hdr ++ (fragment ++ rest))
      ≡ ok (record { hdr = hdr; fragment = record { offset = hdr_len; len = length fragment } })
unfolding header_bytes
parse_header hdr fragment rest seq_fits fits same =
    parse_reads (header_bytes hdr ++ (fragment ++ rest)) (omega arith)
    ∙ ground (
      arith,
      length-append fragment rest,
      be16_split hdr.message_seq seq_fits,
      be24_split hdr.length fits.length_fits,
      be24_split hdr.fragment_offset fits.offset_fits,
      be24_split hdr.fragment_length fits.fragment_fits,
    )

-- What is serialized parses to the same header, whatever follows it in the buffer, with a view
-- that shows the fragment.
pub parse-serialize_handshake :
    (hdr : HandshakeHdr) (fragment rest out : Bytes) (out_cap : ℕ)
    → hdr.message_seq < 2 ^ 16
    → serialize hdr fragment out_cap ≡ ok out
    → (p : Parsed) × (parse (out ++ rest) ≡ ok p)
      × (p.hdr ≡ hdr)
      × (bytes_of (out ++ rest) p.fragment ≡ fragment)
parse-serialize_handshake hdr fragment rest out out_cap seq_fits h =
    let (a, written) = serialize-ok hdr fragment out_cap out h in
    let joined : out ++ rest ≡ header_bytes hdr ++ (fragment ++ rest) =
      rw written (append_assoc (header_bytes hdr) fragment rest) in
    (
      record { hdr = hdr; fragment = record { offset = hdr_len; len = length fragment } },
      rw joined (parse_header hdr fragment rest seq_fits a.fits a.same_length),
      refl,
      rw joined (unfold header_bytes in take-append fragment rest),
    )

serialize-hdr_at :
    (buf : Bytes) (out_cap : ℕ)
    → IsBytes buf
    → hdr_len + (hdr_at buf).fragment_length ≤ length buf
    → hdr_len + (hdr_at buf).fragment_length ≤ out_cap
    → serialize (hdr_at buf) (slice buf hdr_len (hdr_at buf).fragment_length) out_cap
      ≡ ok (take (hdr_len + (hdr_at buf).fragment_length) buf)
serialize-hdr_at buf out_cap bytes inside room =
    let n : ℕ = (hdr_at buf).fragment_length in
    let same : length (slice buf hdr_len n) ≡ n =
      length-bytes_of buf (record { offset = hdr_len; len = n }) inside in
    let halves : take (hdr_len + n) buf ≡ gets hdr_len 0 buf ++ slice buf hdr_len n =
      rw (take-add hdr_len n buf, take-eq-gets hdr_len buf (omega arith)) refl in
    let accepts : Accepts (hdr_at buf) (slice buf hdr_len n) out_cap = record {
      fits = hdr_at-Is24Bit buf bytes;
      same_length = sym same;
      room = rw same room;
    } in
    serialize-Accepts (hdr_at buf) (slice buf hdr_len n) out_cap accepts
    ∙ ap ok (ap (λ t. t ++ slice buf hdr_len n) (header_bytes-hdr_at buf bytes) ∙ sym halves)

-- A fragment that parses is the serialization of what it was parsed to, so no two wire forms of a
-- fragment mean the same.
serialize-parse_handshake :
    (buf : Bytes) (p : Parsed) (out_cap : ℕ)
    → IsBytes buf
    → parse buf ≡ ok p
    → hdr_len + p.fragment.len ≤ out_cap
    → serialize p.hdr (bytes_of buf p.fragment) out_cap ≡ ok (take (hdr_len + p.fragment.len) buf)
serialize-parse_handshake buf p out_cap bytes h room =
    let (inside, e) = parse-ok buf p h in
    rw e (serialize-hdr_at buf out_cap bytes inside (rw e at room))

-- What each result of the serializer says of its arguments.
abbrev Explains : HandshakeHdr → Bytes → ℕ → Result Bytes → Type 0
Explains hdr fragment out_cap (ok out) =
    Accepts hdr fragment out_cap × (out ≡ header_bytes hdr ++ fragment)
Explains hdr fragment out_cap (err bad_arg) =
    ¬ (Is24Bit hdr × (hdr.fragment_length ≡ length fragment))
Explains hdr fragment out_cap (err bad_length) =
    Is24Bit hdr × (hdr.fragment_length ≡ length fragment) × (out_cap < hdr_len + length fragment)
Explains hdr fragment out_cap _ = ⊥

-- The serializer succeeds exactly on what it accepts. A field too wide, or a length that is not
-- the fragment's, is `ND_ERR_BAD_ARG`, and an output too small for what is well-formed
-- `ND_ERR_BAD_LENGTH`; it fails in no other way.
serialize_handshake_branches :
    (hdr : HandshakeHdr) (fragment : Bytes) (out_cap : ℕ)
    → Explains hdr fragment out_cap (serialize hdr fragment out_cap)
unfolding serialize
serialize_handshake_branches hdr fragment out_cap = ground arith

pub length-header_bytes :
    (hdr : HandshakeHdr) (fragment : Bytes)
    → length (header_bytes hdr ++ fragment) ≡ hdr_len + length fragment
unfolding header_bytes
length-header_bytes hdr fragment = omega arith

byte-u8 : (n : ℕ) → u8 n < 256
byte-u8 n = omega arith

pub header_bytes-IsBytes : (hdr : HandshakeHdr) → hdr.msg_type < 256 → IsBytes (header_bytes hdr)
unfolding header_bytes
header_bytes-IsBytes hdr typed = ground (arith, typed)
