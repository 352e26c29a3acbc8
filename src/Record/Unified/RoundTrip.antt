-- ===== src/Record/Unified/RoundTrip.antt =====
-- `nd_unified_parse` inverts `nd_unified_serialize`, and what the serializer accepts.
use nano_dtls.Base.{
  ℕ, ◌+◌, ◌%◌, ◌^◌, ◌≤◌, ◌<◌, ◌≡◌, refl, ◌∙◌, ap, sym, arith, Bool, true, false, if◌then◌else◌, ◌⊎◌,
  inl, inr, [], ◌∷◌, ◌++◌,
}
use nano_dtls.Base.{
  Bytes, bytes_of, length, slice, take-append, Result, ok, err, bad_length, bad_arg,
}
use mathlib.Core.List.{append_assoc}
use nano_dtls.Record.Unified.{
  UnifiedHdr, Parsed, cid_size, seq_size, length_size, parse, flags, header_bytes, serialize,
}
use nano_dtls.Record.Unified.Flags.{flags-Decoded}
use nano_dtls.Record.Unified.Reads.{seq_at, length_at, parsed_at, parse_bits, parse_first}
use nano_dtls.Record.Unified.Written.{
  seq_bytes, length_bytes, datagram, Ends, FitsSeq, seq_written, length-datagram, length_written,
  payload_written,
}

-- The connection ID on the wire.
abbrev pub wire_cid : UnifiedHdr Bytes → Bytes
wire_cid hdr = if hdr.cid_present then hdr.cid else []

-- What the serializer accepts; `total` is the size of the record.
abbrev pub Accepts : UnifiedHdr Bytes → Bytes → Type 0
Accepts hdr payload =
    ((hdr.cid_present ≡ false) ⊎ (0 < length hdr.cid))
    × ((hdr.seq_len_is_16bit ≡ true) ⊎ (hdr.sequence_number < 2 ^ 8))
    × ((hdr.length_present ≡ false) ⊎ (length payload < 2 ^ 16))

abbrev pub total : UnifiedHdr Bytes → Bytes → ℕ
total hdr payload =
    1
    + cid_size hdr.cid_present (length hdr.cid)
    + seq_size hdr.seq_len_is_16bit
    + length_size hdr.length_present
    + length payload

-- What each result of the serializer says of its arguments.
abbrev pub Explains : UnifiedHdr Bytes → Bytes → ℕ → Result Bytes → Type 0
Explains hdr payload out_cap (ok out) =
    Accepts hdr payload
    × (total hdr payload ≤ out_cap)
    × (out ≡ header_bytes hdr (length payload) ++ payload)
Explains hdr payload out_cap (err bad_arg) = ¬ Accepts hdr payload
Explains hdr payload out_cap (err bad_length) = Accepts hdr payload × (out_cap < total hdr payload)
Explains hdr payload out_cap _ = ⊥

-- The serializer succeeds exactly where the connection ID is not empty, the sequence number and
-- the length fit the bytes they are given, and the output has room for the record. It returns
-- `ND_ERR_BAD_ARG` for the first three and `ND_ERR_BAD_LENGTH` for the last, if the size of the
-- record is one of a `size_t`.
serialize_unified_branches :
    (hdr : UnifiedHdr Bytes) (payload : Bytes) (out_cap : ℕ)
    → total hdr payload < 2 ^ 64
    → Explains hdr payload out_cap (serialize hdr payload out_cap)
unfolding serialize
serialize_unified_branches hdr payload out_cap fits = ground arith

serialize-ok :
    (hdr : UnifiedHdr Bytes) (payload out : Bytes) (out_cap : ℕ)
    → total hdr payload < 2 ^ 64
    → serialize hdr payload out_cap ≡ ok out
    → Accepts hdr payload × (out ≡ header_bytes hdr (length payload) ++ payload)
serialize-ok hdr payload out out_cap fits h =
    let all : Explains hdr payload out_cap (ok out) =
      rw h at (serialize_unified_branches hdr payload out_cap fits) in
    (all.0, all.2)

-- What the serializer writes, in the layout of the parser's lemmas.
abbrev prefix : UnifiedHdr Bytes → Bytes
prefix hdr =
    flags hdr.cid_present hdr.seq_len_is_16bit hdr.length_present hdr.epoch_low2 ∷ wire_cid hdr

abbrev laid_out : UnifiedHdr Bytes → Bytes → Bytes → Bytes
laid_out hdr payload rest =
    datagram (prefix hdr) hdr.seq_len_is_16bit hdr.sequence_number hdr.length_present payload rest

written-laid_out :
    (hdr : UnifiedHdr Bytes) (payload rest : Bytes)
    → (header_bytes hdr (length payload) ++ payload) ++ rest ≡ laid_out hdr payload rest
unfolding header_bytes
written-laid_out hdr payload rest =
    let c : Bytes = wire_cid hdr in
    let s : Bytes = seq_bytes hdr.seq_len_is_16bit hdr.sequence_number in
    let l : Bytes = length_bytes hdr.length_present (length payload) in
    ap (λ t. flags hdr.cid_present hdr.seq_len_is_16bit hdr.length_present hdr.epoch_low2 ∷ t)
      (append_assoc (c ++ s ++ l) payload rest
        ∙ append_assoc (c ++ s) l (payload ++ rest)
        ∙ append_assoc c s (l ++ (payload ++ rest)))

-- What the header reads as: the fields that are on the wire.
abbrev pub Received : Bytes → UnifiedHdr Bytes → Bytes → Parsed → Type 0
Received buf hdr payload p =
    (p.hdr.cid_present ≡ hdr.cid_present)
    × (p.hdr.seq_len_is_16bit ≡ hdr.seq_len_is_16bit)
    × (p.hdr.length_present ≡ hdr.length_present)
    × (p.hdr.epoch_low2 ≡ hdr.epoch_low2 % 4)
    × (bytes_of buf p.hdr.cid ≡ wire_cid hdr)
    × (p.hdr.sequence_number ≡ hdr.sequence_number)
    × (p.hdr.length ≡ length payload)
    × (bytes_of buf p.payload ≡ payload)

length-prefix :
    (hdr : UnifiedHdr Bytes) (cid_len : ℕ)
    → (hdr.cid_present ≡ false) ⊎ (cid_len ≡ length hdr.cid)
    → length (prefix hdr) ≡ 1 + cid_size hdr.cid_present cid_len
length-prefix hdr cid_len agreed = ground arith

cid_written :
    (first : ℕ) (present : Bool) (cid tail : Bytes) (cid_len : ℕ)
    → (present ≡ false) ⊎ (cid_len ≡ length cid)
    → bytes_of
        (first ∷ (if present then cid else []) ++ tail)
        (record { offset = if present then 1 else 0; len = cid_size present cid_len })
      ≡ (if present then cid else [])
cid_written first true cid tail cid_len (inl absent) = absurd (ground (arith, absent))
cid_written first true cid tail cid_len (inr e) = rw e (take-append cid tail)
cid_written first false cid tail cid_len agreed = refl

-- The parser on what is laid out, once the bits of the first byte are known.
bits_written :
    (hdr : UnifiedHdr Bytes) (payload rest : Bytes) (cid_len : ℕ)
    → Accepts hdr payload
    → (hdr.cid_present ≡ false) ⊎ (cid_len ≡ length hdr.cid)
    → Ends hdr.length_present payload rest
    → FitsSeq hdr.seq_len_is_16bit hdr.sequence_number
    → let buf = laid_out hdr payload rest in
      let e = hdr.epoch_low2 % 4 in
      let p = parsed_at buf hdr.cid_present hdr.seq_len_is_16bit hdr.length_present e cid_len in
      (parse_bits buf hdr.cid_present hdr.seq_len_is_16bit hdr.length_present e cid_len ≡ ok p)
      × Received buf hdr payload p
bits_written hdr payload rest cid_len accepts agreed ends fits = (
  ground (arith, numbers, seq_there, length_there, agreed),
  (
    refl,
    refl,
    refl,
    refl,
    cid_written (flags hdr.cid_present hdr.seq_len_is_16bit hdr.length_present hdr.epoch_low2)
        hdr.cid_present hdr.cid
        (seq_bytes hdr.seq_len_is_16bit hdr.sequence_number
          ++ (length_bytes hdr.length_present (length payload) ++ (payload ++ rest)))
        cid_len agreed,
    seq_there,
    length_there,
    payload_there,
  ),
)
  where
    buf : Bytes
    buf = laid_out hdr payload rest

    s : Bool
    s = hdr.seq_len_is_16bit

    l : Bool
    l = hdr.length_present

    place : length (prefix hdr) ≡ 1 + cid_size hdr.cid_present cid_len
    place = length-prefix hdr cid_len agreed

    seq_there : seq_at buf s (1 + cid_size hdr.cid_present cid_len) ≡ hdr.sequence_number
    seq_there = rw (sym place) (seq_written (prefix hdr) payload rest hdr.sequence_number s l fits)

    length_there :
        length_at buf l (1 + cid_size hdr.cid_present cid_len + seq_size s) ≡ length payload
    length_there =
        rw (sym place) (length_written (prefix hdr) payload rest hdr.sequence_number s l ends)

    payload_there :
        slice buf
          (1 + cid_size hdr.cid_present cid_len + seq_size s + length_size l)
          (length_at buf l (1 + cid_size hdr.cid_present cid_len + seq_size s))
        ≡ payload
    payload_there =
        rw (length_there, sym place)
          (payload_written (prefix hdr) payload rest hdr.sequence_number s l)

    numbers :
        length buf
        ≡ length (prefix hdr) + (seq_size s + length_size l + (length payload + length rest))
    numbers = length-datagram (prefix hdr) payload rest hdr.sequence_number s l

seq-FitsSeq : (s : Bool) (v : ℕ) → (s ≡ true) ⊎ (v < 2 ^ 8) → v < 2 ^ 16 → FitsSeq s v
seq-FitsSeq true v narrow word = word
seq-FitsSeq false v narrow word = ground (arith, narrow)

-- The same with the record that the parser returns written out.
pub parse_serialized :
    (hdr : UnifiedHdr Bytes) (payload rest out : Bytes) (out_cap cid_len : ℕ)
    → total hdr payload < 2 ^ 64
    → cid_len + 5 < 2 ^ 64
    → hdr.sequence_number < 2 ^ 16
    → (hdr.cid_present ≡ false) ⊎ (cid_len ≡ length hdr.cid)
    → Ends hdr.length_present payload rest
    → serialize hdr payload out_cap ≡ ok out
    → let e = hdr.epoch_low2 % 4 in
      let buf = out ++ rest in
      let p = parsed_at buf hdr.cid_present hdr.seq_len_is_16bit hdr.length_present e cid_len in
      (parse buf cid_len ≡ ok p) × Received buf hdr payload p
parse_serialized hdr payload rest out out_cap cid_len fits small word agreed ends h =
    let (accepts, written) = serialize-ok hdr payload out out_cap fits h in
    let c : Bool = hdr.cid_present in
    let s : Bool = hdr.seq_len_is_16bit in
    let l : Bool = hdr.length_present in
    let e : ℕ = hdr.epoch_low2 % 4 in
    let buf : Bytes = laid_out hdr payload rest in
    let joined : out ++ rest ≡ buf = rw written (written-laid_out hdr payload rest) in
    let (fixed, cb, sb, lb, eb) = flags-Decoded c s l hdr.epoch_low2 in
    let (parsed, received) =
      bits_written hdr payload rest cid_len accepts agreed ends
        (seq-FitsSeq s hdr.sequence_number accepts.1 word) in
    rw joined (
      parse_first buf cid_len small (omega arith) fixed
          ∙ (λ i. parse_bits buf (cb i) (sb i) (lb i) (eb i) cid_len)
          ∙ parsed,
      received,
    )

-- What is serialized parses to the fields that are on the wire, and to views that show the
-- connection ID and the payload, where both sides agree on the length of a connection ID that is
-- present, and the sequence number is one of 16 bits. Anything may follow a record with a length;
-- a record without one is the last of its datagram and its payload is shorter than 65536 bytes.
pub parse-serialize_unified :
    (hdr : UnifiedHdr Bytes) (payload rest out : Bytes) (out_cap cid_len : ℕ)
    → total hdr payload < 2 ^ 64
    → cid_len + 5 < 2 ^ 64
    → hdr.sequence_number < 2 ^ 16
    → (hdr.cid_present ≡ false) ⊎ (cid_len ≡ length hdr.cid)
    → Ends hdr.length_present payload rest
    → serialize hdr payload out_cap ≡ ok out
    → (p : Parsed) × (parse (out ++ rest) cid_len ≡ ok p) × Received (out ++ rest) hdr payload p
parse-serialize_unified hdr payload rest out out_cap cid_len fits small word agreed ends h =
    let (parsed, received) =
      parse_serialized hdr payload rest out out_cap cid_len fits small word agreed ends h in
    (
      parsed_at (out ++ rest) hdr.cid_present hdr.seq_len_is_16bit hdr.length_present
          (hdr.epoch_low2 % 4) cid_len,
      parsed,
      received,
    )

pub serialize-Accepts :
    (hdr : UnifiedHdr Bytes) (payload : Bytes) (out_cap : ℕ)
    → Accepts hdr payload
    → total hdr payload ≤ out_cap
    → total hdr payload < 2 ^ 64
    → serialize hdr payload out_cap ≡ ok (header_bytes hdr (length payload) ++ payload)
unfolding serialize
serialize-Accepts hdr payload out_cap accepts room fits = ground arith
