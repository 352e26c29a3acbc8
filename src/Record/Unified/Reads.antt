-- ===== src/Record/Unified/Reads.antt =====
-- `nd_unified_parse`: the fields that it reads, and that it reads them inside the buffer.
use nano_dtls.Base.{
  ℕ, ◌+◌, ◌-◌, ◌^◌, ◌≤◌, ◌<◌, ◌≡◌, ◌≢◌, ◌∙◌, arith, Bool, true, false, ◌&&◌, if◌then◌else◌, ltb,
  ◌⊎◌, ◌==◌, ◌!=◌, bit_and, u8, u16,
}
use nano_dtls.Base.{Bytes, Within, length, get_or, be16, byte_at_in}
use nano_dtls.Base.{Result, ok, err, truncated, bad_length, bad_arg, not_unified}
use nano_dtls.Record.Unified.{
  Parsed, cid_size, seq_size, length_size, read_seq, read_length, parse_rest, parse,
}

abbrev pub seq_at : Bytes → Bool → ℕ → ℕ
seq_at buf true off = be16 (get_or buf off 0) (get_or buf (off + 1) 0)
seq_at buf false off = get_or buf off 0

abbrev pub length_at : Bytes → Bool → ℕ → ℕ
length_at buf true off = be16 (get_or buf off 0) (get_or buf (off + 1) 0)
length_at buf false off = u16 (length buf - off)

read_seq_in :
    (buf : Bytes) (s : Bool) (off : ℕ)
    → off + seq_size s ≤ length buf
    → read_seq buf s off ≡ ok (seq_at buf s off)
unfolding read_seq
read_seq_in buf true off h = ground (arith, byte_at_in buf off, byte_at_in buf (off + 1))
read_seq_in buf false off h = byte_at_in buf off (omega arith)

read_length_in :
    (buf : Bytes) (l : Bool) (off : ℕ)
    → off + length_size l ≤ length buf
    → read_length buf l off ≡ (
        if ltb (length buf - (off + length_size l)) (length_at buf l off)
        then err bad_length
        else ok (length_at buf l off))
unfolding read_length
read_length_in buf true off h = ground (arith, byte_at_in buf off, byte_at_in buf (off + 1))
read_length_in buf false off h = ground arith

-- What follows the first byte, as a function of its bits.
abbrev pub parsed_at : Bytes → Bool → Bool → Bool → ℕ → ℕ → Parsed
parsed_at buf c s l e cid_len =
    let seq_off = 1 + cid_size c cid_len in
    let length_off = seq_off + seq_size s in
    record {
      hdr = record {
        cid_present = c;
        seq_len_is_16bit = s;
        length_present = l;
        epoch_low2 = e;
        cid = record { offset = if c then 1 else 0; len = cid_size c cid_len };
        sequence_number = seq_at buf s seq_off;
        length = length_at buf l length_off;
      };
      payload = record { offset = length_off + length_size l; len = length_at buf l length_off };
    }

-- The size of the header.
abbrev pub size : Bool → Bool → Bool → ℕ → ℕ
size c s l cid_len = 1 + cid_size c cid_len + seq_size s + length_size l

-- The parser without its reads.
abbrev pub parse_bits : Bytes → Bool → Bool → Bool → ℕ → ℕ → Result Parsed
parse_bits buf c s l e cid_len =
    let p = parsed_at buf c s l e cid_len in
    if c && (cid_len == 0)
    then err bad_arg
    else if ltb (length buf) (size c s l cid_len)
    then err truncated
    else if ltb (length buf - size c s l cid_len) p.payload.len
    then err bad_length
    else ok p

pub parse_rest_reads :
    (buf : Bytes) (cid_len : ℕ) (c s l : Bool) (e : ℕ)
    → cid_len + 5 < 2 ^ 64
    → parse_rest buf cid_len c s l e ≡ parse_bits buf c s l e cid_len
unfolding parse_rest
parse_rest_reads buf cid_len c s l e small =
    let seq_off : ℕ = 1 + cid_size c cid_len in
    ground (arith, read_seq_in buf s seq_off, read_length_in buf l (seq_off + seq_size s))

-- The bits of the first byte.
abbrev pub first_bits : Bytes → ℕ → Result Parsed
first_bits buf cid_len =
    let b0 = get_or buf 0 0 in
    parse_bits buf (bit_and b0 0x10 != 0) (bit_and b0 0x08 != 0) (bit_and b0 0x04 != 0)
      (u8 (bit_and b0 0x03)) cid_len

pub parse_reads :
    (buf : Bytes) (cid_len : ℕ)
    → cid_len + 5 < 2 ^ 64
    → parse buf cid_len ≡ (
        if ltb (length buf) 1
        then err truncated
        else if bit_and (get_or buf 0 0) 0xe0 != 0x20
        then err not_unified
        else first_bits buf cid_len)
unfolding parse
parse_reads buf cid_len small =
    let b0 = get_or buf 0 0 in
    ground (
      arith,
      byte_at_in buf 0,
      parse_rest_reads buf cid_len (bit_and b0 0x10 != 0) (bit_and b0 0x08 != 0)
          (bit_and b0 0x04 != 0) (u8 (bit_and b0 0x03)) small,
    )

pub parse_first :
    (buf : Bytes) (cid_len : ℕ)
    → cid_len + 5 < 2 ^ 64
    → 1 ≤ length buf
    → bit_and (get_or buf 0 0) 0xe0 ≡ 0x20
    → parse buf cid_len ≡ first_bits buf cid_len
parse_first buf cid_len small some fixed = parse_reads buf cid_len small ∙ ground (arith, fixed)

-- The size of the header that a first byte announces.
abbrev pub announced : ℕ → ℕ → ℕ
announced b0 cid_len =
    size (bit_and b0 0x10 != 0) (bit_and b0 0x08 != 0) (bit_and b0 0x04 != 0) cid_len

-- What each result of the parser says of the buffer.
abbrev pub Describes : Bytes → ℕ → Result Parsed → Type 0
Describes buf cid_len (ok p) =
    (bit_and (get_or buf 0 0) 0xe0 ≡ 0x20)
    × Within buf p.hdr.cid
    × Within buf p.payload
    × (p.payload.len ≡ p.hdr.length)
    × (p.payload.offset ≡ announced (get_or buf 0 0) cid_len)
Describes buf cid_len (err truncated) =
    (length buf ≡ 0) ⊎ (length buf < announced (get_or buf 0 0) cid_len)
Describes buf cid_len (err not_unified) = bit_and (get_or buf 0 0) 0xe0 ≢ 0x20
Describes buf cid_len (err bad_arg) = (cid_len ≡ 0) × (bit_and (get_or buf 0 0) 0x10 ≢ 0)
Describes buf cid_len (err bad_length) =
    let n = announced (get_or buf 0 0) cid_len in
    (bit_and (get_or buf 0 0) 0x04 ≢ 0)
    × (length buf < n + be16 (get_or buf (n - 2) 0) (get_or buf (n - 1) 0))
Describes buf cid_len _ = ⊥

-- For a negotiated length of the connection ID below 2^64 - 5, whatever the buffer holds, the parser
-- does not read outside it. The connection ID and the payload that it returns lie inside the buffer, the payload behind the header that the first byte announces. It
-- fails only for the reason that its error names: no unified header, a connection ID where none
-- was negotiated, a buffer too short, a length that is present and runs past the buffer.
pub parse_unified-Describes :
    (buf : Bytes) (cid_len : ℕ) → cid_len + 5 < 2 ^ 64 → Describes buf cid_len (parse buf cid_len)
parse_unified-Describes buf cid_len small = rw (parse_reads buf cid_len small) (ground arith)
