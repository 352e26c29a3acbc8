-- ===== src/Record/Plaintext/RoundTrip.antt =====
-- `nd_plaintext_parse` and `nd_plaintext_serialize` invert one another.
use nano_dtls.Base.{Result, ℕ, ◌+◌, ◌^◌, ◌≤◌, ◌<◌, ◌≡◌, refl, ◌++◌, arith}
use nano_dtls.Base.{Bytes, IsBytes, bytes_of, length, take, get_or}
use nano_dtls.Base.{
  ◌⊎◌, be16-lt, ap, sym, slice, take-add, take-eq-gets, gets, be16_split, length-append, ◌∙◌, ok,
  err, bad_length, bad_arg, take-append,
}
use mathlib.Core.List.{append_assoc}
use nano_dtls.Record.Plaintext.{PlaintextHdr, Parsed, hdr_len, parse, header_bytes, serialize}
use nano_dtls.Record.Plaintext.Reads.{
  be48_split, hdr_at, parse_reads, parse-ok, header_bytes-hdr_at, seq_at-lt,
}
use nano_dtls.Base.{length-bytes_of}

-- What the header of a serialized record reads as.
abbrev pub sent : PlaintextHdr → Bytes → PlaintextHdr
sent hdr fragment = record hdr { length = length fragment }

-- A header whose fields fit their widths on the wire.
pub record Fits (hdr : PlaintextHdr) : Type 0 where
  pub type_fits : hdr.type < 2 ^ 8
  pub version_fits : hdr.legacy_version < 2 ^ 16
  pub epoch_fits : hdr.epoch < 2 ^ 16

parse_header :
    (hdr : PlaintextHdr) (fragment rest : Bytes)
    → Fits hdr
    → hdr.sequence_number < 2 ^ 48
    → length fragment < 2 ^ 16
    → parse (header_bytes hdr (length fragment) ++ (fragment ++ rest))
      ≡ ok (record {
        hdr = sent hdr fragment;
        fragment = record { offset = hdr_len; len = length fragment };
      })
unfolding header_bytes
parse_header hdr fragment rest fits seq_fits len_fits =
    parse_reads (header_bytes hdr (length fragment) ++ (fragment ++ rest)) (omega arith)
    ∙ ground (
      arith,
      length-append fragment rest,
      be16_split (length fragment) len_fits,
      be16_split hdr.legacy_version fits.version_fits,
      be16_split hdr.epoch fits.epoch_fits,
      be48_split hdr.sequence_number seq_fits,
    )

-- What the serializer accepts: a 48-bit sequence number, a 16-bit length, room in the output.
abbrev pub Accepts : PlaintextHdr → Bytes → ℕ → Type 0
Accepts hdr fragment out_cap =
    (hdr.sequence_number < 2 ^ 48)
    × (length fragment < 2 ^ 16)
    × (hdr_len + length fragment ≤ out_cap)

serialize-ok :
    (hdr : PlaintextHdr) (fragment : Bytes) (out_cap : ℕ) (out : Bytes)
    → serialize hdr fragment out_cap ≡ ok out
    → Accepts hdr fragment out_cap × (out ≡ header_bytes hdr (length fragment) ++ fragment)
unfolding serialize
serialize-ok hdr fragment out_cap out h = ((ground arith, ground arith, ground arith), ground arith)

-- What is serialized parses, whatever follows it in the buffer: the same header with the length
-- of the fragment in it, and a view that shows the fragment.
pub parse-serialize_plaintext :
    (hdr : PlaintextHdr) (fragment rest out : Bytes) (out_cap : ℕ)
    → Fits hdr
    → serialize hdr fragment out_cap ≡ ok out
    → (p : Parsed) × (parse (out ++ rest) ≡ ok p)
      × (p.hdr ≡ sent hdr fragment)
      × (bytes_of (out ++ rest) p.fragment ≡ fragment)
parse-serialize_plaintext hdr fragment rest out out_cap fits h =
    let (accepts, written) = serialize-ok hdr fragment out_cap out h in
    let joined : out ++ rest ≡ header_bytes hdr (length fragment) ++ (fragment ++ rest) =
      rw written (append_assoc (header_bytes hdr (length fragment)) fragment rest) in
    (
      record {
        hdr = sent hdr fragment;
        fragment = record { offset = hdr_len; len = length fragment };
      },
      rw joined (parse_header hdr fragment rest fits accepts.0 accepts.1),
      refl,
      rw joined (unfold header_bytes in take-append fragment rest),
    )

-- What each result of the serializer says of its arguments.
abbrev Explains : PlaintextHdr → Bytes → ℕ → Result Bytes → Type 0
Explains hdr fragment out_cap (ok out) =
    Accepts hdr fragment out_cap × (out ≡ header_bytes hdr (length fragment) ++ fragment)
Explains hdr fragment out_cap (err bad_arg) =
    (2 ^ 48 ≤ hdr.sequence_number) ⊎ (2 ^ 16 ≤ length fragment)
Explains hdr fragment out_cap (err bad_length) =
    (hdr.sequence_number < 2 ^ 48)
    × (length fragment < 2 ^ 16)
    × (out_cap < hdr_len + length fragment)
Explains hdr fragment out_cap _ = ⊥

-- The serializer succeeds exactly on what it accepts. A sequence number or a length too wide is
-- `ND_ERR_BAD_ARG`, and an output too small for what is not too wide `ND_ERR_BAD_LENGTH`; it fails
-- in no other way.
serialize_plaintext_branches :
    (hdr : PlaintextHdr) (fragment : Bytes) (out_cap : ℕ)
    → Explains hdr fragment out_cap (serialize hdr fragment out_cap)
unfolding serialize
serialize_plaintext_branches hdr fragment out_cap = ground arith

pub serialize-Accepts :
    (hdr : PlaintextHdr) (fragment : Bytes) (out_cap : ℕ)
    → Accepts hdr fragment out_cap
    → serialize hdr fragment out_cap ≡ ok (header_bytes hdr (length fragment) ++ fragment)
unfolding serialize
serialize-Accepts hdr fragment out_cap a = ground arith

serialize-hdr_at :
    (buf : Bytes) (out_cap : ℕ)
    → IsBytes buf
    → hdr_len + (hdr_at buf).length ≤ length buf
    → hdr_len + (hdr_at buf).length ≤ out_cap
    → serialize (hdr_at buf) (slice buf hdr_len (hdr_at buf).length) out_cap
      ≡ ok (take (hdr_len + (hdr_at buf).length) buf)
serialize-hdr_at buf out_cap bytes inside room =
    let n : ℕ = (hdr_at buf).length in
    let same : length (slice buf hdr_len n) ≡ n =
      length-bytes_of buf (record { offset = hdr_len; len = n }) inside in
    let halves : take (hdr_len + n) buf ≡ gets hdr_len 0 buf ++ slice buf hdr_len n =
      rw (take-add hdr_len n buf, take-eq-gets hdr_len buf (omega arith)) refl in
    let accepts : Accepts (hdr_at buf) (slice buf hdr_len n) out_cap = (
      seq_at-lt buf bytes,
      omega (arith, same, be16-lt (get_or buf 11 0) (get_or buf 12 0)),
      rw same room,
    ) in
    serialize-Accepts (hdr_at buf) (slice buf hdr_len n) out_cap accepts
    ∙ ap ok (
        ap (λ k. header_bytes (hdr_at buf) k ++ slice buf hdr_len n) same
        ∙ ap (λ t. t ++ slice buf hdr_len n) (header_bytes-hdr_at buf bytes)
        ∙ sym halves)

-- A record that parses is the serialization of what it was parsed to, so no two wire forms of a
-- record mean the same.
serialize-parse_plaintext :
    (buf : Bytes) (p : Parsed) (out_cap : ℕ)
    → IsBytes buf
    → parse buf ≡ ok p
    → hdr_len + p.fragment.len ≤ out_cap
    → serialize p.hdr (bytes_of buf p.fragment) out_cap ≡ ok (take (hdr_len + p.fragment.len) buf)
serialize-parse_plaintext buf p out_cap bytes h room =
    let (inside, e) = parse-ok buf p h in
    rw e (serialize-hdr_at buf out_cap bytes inside (rw e at room))
