-- ===== src/Ack.antt =====
-- ACK messages, src/ack.c. The array of an `nd_ack` is the list of its first `count` records.
-- Pointers are valid, so the tests for NULL fall away; `buf + pos` is `drop pos buf`.
pub mod Words
pub mod Records
pub mod RoundTrip
mod Tests
use nano_dtls.Base.{ℕ, zero, suc, ◌+◌, ◌-◌, ◌*◌, ◌/◌, ◌%◌, ◌++◌, List, [], ◌∷◌, ltb, ◌!=◌, bit_or}
use nano_dtls.Base.{Bytes, byte_at, length, drop, be16, u8, u64, ◌<<<◌, ◌>>>◌}
use nano_dtls.Base.{Result, ok, ◌>>=◌, ◌>>◌, fail_if, truncated, bad_length, bad_arg, unsupported}

abbrev pub max_records : ℕ
max_records = 32

-- `nd_record_number`
pub record RecordNumber : Type 0 where
  pub epoch : ℕ
  pub sequence_number : ℕ

-- The loop of `put_u64` at index `i`, with `left` rounds to go.
unfoldable pub put_from : ℕ → ℕ → ℕ → Bytes
put_from zero i v = []
put_from (suc left) i v = u8 (v >>> (8 * (7 - i))) ∷ put_from left (i + 1) v

unfoldable pub put_u64 : ℕ → Bytes
unfolding put_from
put_u64 v = put_from 8 0 v

-- One round of `get_u64`: `v = (v << 8) | in[i]`.
abbrev pub push_byte : ℕ → ℕ → ℕ
push_byte v b = bit_or (u64 (v <<< 8)) b

-- The loop of `get_u64` at index `i`, with `left` rounds to go.
unfoldable pub get_from : Bytes → ℕ → ℕ → ℕ → Result ℕ
get_from inp zero i v = ok v
get_from inp (suc left) i v = do b ← byte_at inp i; get_from inp left (i + 1) (push_byte v b)

unfoldable pub get_u64 : Bytes → Result ℕ
unfolding get_from
get_u64 inp = get_from inp 8 0 0

-- The loop over the records, each sixteen bytes.
unfoldable pub put_records : List RecordNumber → Bytes
put_records [] = []
put_records (r ∷ rs) = put_u64 r.epoch ++ (put_u64 r.sequence_number ++ put_records rs)

-- The result is `out_buf[0 .. *out_len)`; `out_cap` is `out_buf_cap`.
unfoldable pub serialize : List RecordNumber → ℕ → Result Bytes
serialize ack out_cap = do
  fail_if (ltb max_records (length ack)) bad_arg
  let list_len = length ack * 16
  fail_if (ltb out_cap (2 + list_len)) bad_length
  ok (u8 (list_len >>> 8) ∷ u8 list_len ∷ put_records ack)

-- The loop at `pos`, with `left` records to read.
unfoldable pub get_records : Bytes → ℕ → ℕ → Result (List RecordNumber)
get_records buf zero pos = ok []
get_records buf (suc left) pos = do
  epoch ← get_u64 (drop pos buf)
  sequence_number ← get_u64 (drop (pos + 8) buf)
  rest ← get_records buf left (pos + 16)
  ok (record { epoch = epoch; sequence_number = sequence_number } ∷ rest)

unfoldable pub parse : Bytes → Result (List RecordNumber)
parse buf = do
  fail_if (ltb (length buf) 2) truncated
  b0 ← byte_at buf 0
  b1 ← byte_at buf 1
  let list_len = be16 b0 b1
  fail_if (list_len + 2 != length buf) bad_length
  fail_if (list_len % 16 != 0) bad_length
  let count = list_len / 16
  fail_if (ltb max_records count) unsupported
  get_records buf count 2
