-- ===== src/Record/Unified.antt =====
-- `nd_unified_parse` and `nd_unified_serialize` of src/record.c: the compact header of encrypted
-- records. The connection ID is a view of the buffer in what the parser returns and bytes in what
-- the serializer takes, so its type is a parameter of the header.
pub mod Flags
pub mod Reads
mod Written
pub mod RoundTrip
mod Tests
use nano_dtls.Base.{
  ℕ, ◌+◌, ◌-◌, Bool, true, false, ◌&&◌, not, ◌++◌, List, [], ◌∷◌, bit_or, bit_and, ltb, ◌==◌, ◌!=◌,
  if◌then◌else◌,
}
use nano_dtls.Base.{Bytes, View, byte_at, length, be16, u8, u16, u64, ◌>>>◌}
use nano_dtls.Base.{Result, ok, ◌>>=◌, ◌>>◌, fail_if, truncated, bad_length, bad_arg, not_unified}

-- `nd_unified_hdr`
pub record UnifiedHdr (Cid : Type 0) : Type 0 where
  pub cid_present : Bool
  pub seq_len_is_16bit : Bool
  pub length_present : Bool
  pub epoch_low2 : ℕ
  pub cid : Cid
  pub sequence_number : ℕ
  pub length : ℕ

pub record Parsed : Type 0 where
  pub hdr : UnifiedHdr View
  pub payload : View

-- Bytes taken by the connection ID, the sequence number and the length.
abbrev pub cid_size : Bool → ℕ → ℕ
cid_size present cid_len = if present then cid_len else 0

abbrev pub seq_size : Bool → ℕ
seq_size seq16 = if seq16 then 2 else 1

abbrev pub length_size : Bool → ℕ
length_size present = if present then 2 else 0

-- The sequence number at `off`.
unfoldable pub read_seq : Bytes → Bool → ℕ → Result ℕ
read_seq buf true off = do hi ← byte_at buf off; lo ← byte_at buf (off + 1); ok (be16 hi lo)
read_seq buf false off = byte_at buf off

-- The length at `off`, or all that is left of the datagram.
unfoldable pub read_length : Bytes → Bool → ℕ → Result ℕ
read_length buf true off = do
  hi ← byte_at buf off
  lo ← byte_at buf (off + 1)
  fail_if (ltb (length buf - (off + 2)) (be16 hi lo)) bad_length
  ok (be16 hi lo)
read_length buf false off = ok (u16 (length buf - off))

-- The parser once the first byte is taken apart.
pub parse_rest : Bytes → ℕ → Bool → Bool → Bool → ℕ → Result Parsed
parse_rest buf cid_len cid_present seq16 len_present epoch_low2 = do
  fail_if (cid_present && (cid_len == 0)) bad_arg
  let need = u64 (1 + cid_size cid_present cid_len + seq_size seq16 + length_size len_present)
  fail_if (ltb (length buf) need) truncated
  let seq_off = u64 (1 + cid_size cid_present cid_len)
  seq ← read_seq buf seq16 seq_off
  let length_off = u64 (seq_off + seq_size seq16)
  n ← read_length buf len_present length_off
  ok (record {
    hdr = record {
      cid_present = cid_present;
      seq_len_is_16bit = seq16;
      length_present = len_present;
      epoch_low2 = epoch_low2;
      cid = record { offset = if cid_present then 1 else 0; len = cid_size cid_present cid_len };
      sequence_number = seq;
      length = n;
    };
    payload = record { offset = u64 (length_off + length_size len_present); len = n };
  })

unfoldable pub parse : Bytes → ℕ → Result Parsed
parse buf cid_len = do
  fail_if (ltb (length buf) 1) truncated
  b0 ← byte_at buf 0
  fail_if (bit_and b0 0xe0 != 0x20) not_unified
  parse_rest buf cid_len (bit_and b0 0x10 != 0) (bit_and b0 0x08 != 0) (bit_and b0 0x04 != 0)
      (u8 (bit_and b0 0x03))

-- The first byte.
unfoldable pub flags : Bool → Bool → Bool → ℕ → ℕ
flags cid_present seq16 len_present epoch_low2 = u8 (
    bit_or
      (bit_or (bit_or (bit_or 0x20 (if cid_present then 0x10 else 0)) (if seq16 then 0x08 else 0))
        (if len_present then 0x04 else 0))
      (bit_and epoch_low2 0x03))

-- The bytes that are written before the payload.
unfoldable pub header_bytes : UnifiedHdr Bytes → ℕ → Bytes
header_bytes hdr n =
    (flags hdr.cid_present hdr.seq_len_is_16bit hdr.length_present hdr.epoch_low2 ∷ [])
    ++ (if hdr.cid_present then hdr.cid else [])
    ++ (if hdr.seq_len_is_16bit
        then u8 (hdr.sequence_number >>> 8) ∷ u8 hdr.sequence_number ∷ []
        else u8 hdr.sequence_number ∷ [])
    ++ (if hdr.length_present then u8 (n >>> 8) ∷ u8 n ∷ [] else [])

-- The result is `out_buf[0 .. *out_len)`; `out_cap` is `out_buf_cap`.
pub serialize : UnifiedHdr Bytes → Bytes → ℕ → Result Bytes
serialize hdr payload out_cap = do
  let n = length payload
  fail_if (hdr.cid_present && (length hdr.cid == 0)) bad_arg
  fail_if (not hdr.seq_len_is_16bit && ltb 0xff hdr.sequence_number) bad_arg
  fail_if (hdr.length_present && ltb 0xffff n) bad_arg
  let total = u64 (
      1
      + cid_size hdr.cid_present (length hdr.cid)
      + seq_size hdr.seq_len_is_16bit
      + length_size hdr.length_present
      + n)
  fail_if (ltb out_cap total) bad_length
  ok (header_bytes hdr n ++ payload)
