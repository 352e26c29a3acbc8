-- ===== src/Ack/RoundTrip.antt =====
-- `nd_ack_serialize` and `nd_ack_parse` invert one another, and read inside the buffer.
use nano_dtls.Base.{
  ℕ, ◌+◌, ◌*◌, ◌/◌, ◌%◌, ◌≤◌, ◌<◌, ◌≡◌, ◌≢◌, sym, ap, ◌∙◌, ◌⊎◌, arith, List, [], ◌∷◌,
}
use nano_dtls.Base.{
  byte_at, Bytes, IsBytes, byte_at_in, get_or, length, u8, be16, be16_split, be16_join, take, drop,
  length-drop, take_all, ◌>>>◌,
}
use nano_dtls.Base.{Result, ok, err, truncated, bad_length, unsupported}
use mathlib.Core.List.{append-nil}
use nano_dtls.Ack.{RecordNumber, max_records, put_records, serialize, parse}
use nano_dtls.Ack.Records.{
  AllWords, length-put_records, get_records-put_records, records_at, length-records_at,
  get_records_reads, put_records-records_at,
}

abbrev written : List RecordNumber → Bytes
written ack = u8 ((length ack * 16) >>> 8) ∷ u8 (length ack * 16) ∷ put_records ack

serialize-ok :
    (ack : List RecordNumber) (out_cap : ℕ) (out : Bytes)
    → serialize ack out_cap ≡ ok out
    → (length ack ≤ max_records) × (out ≡ written ack)
unfolding serialize
serialize-ok ack out_cap out h = (ground arith, ground arith)

parse-written :
    (ack : List RecordNumber)
    → AllWords ack
    → length ack ≤ max_records
    → parse (written ack) ≡ ok ack
unfolding parse byte_at
parse-written ack words small = ground (
  arith,
  be16_split (length ack * 16) (omega arith),
  length-put_records ack,
  get_records-put_records ack (written ack) [] 2 words (sym (append-nil (put_records ack))),
)

-- What is serialized parses to the same records.
pub parse-serialize_ack :
    (ack : List RecordNumber) (out : Bytes) (out_cap : ℕ)
    → AllWords ack
    → serialize ack out_cap ≡ ok out
    → parse out ≡ ok ack
parse-serialize_ack ack out out_cap words h =
    let (small, e) = serialize-ok ack out_cap out h in rw e (parse-written ack words small)

abbrev list_len_at : Bytes → ℕ
list_len_at buf = be16 (get_or buf 0 0) (get_or buf 1 0)

-- What each result of the parser says of the buffer.
abbrev pub Explains : Bytes → Result (List RecordNumber) → Type 0
Explains buf (ok ack) = (length ack ≤ max_records) × (length buf ≡ 2 + length ack * 16)
Explains buf (err truncated) = length buf < 2
Explains buf (err bad_length) = (list_len_at buf + 2 ≢ length buf) ⊎ (list_len_at buf % 16 ≢ 0)
Explains buf (err unsupported) =
    (list_len_at buf + 2 ≡ length buf) × (max_records * 16 < list_len_at buf)
Explains buf _ = ⊥

-- On no input does the parser read outside the buffer. What it accepts is at most 32 records that
-- fill the buffer exactly; it fails as truncated, with a bad length, or as unsupported where the
-- list is well-formed and longer than 32 records.
pub parse_ack_branches : (buf : Bytes) → Explains buf (parse buf)
unfolding parse
parse_ack_branches buf = ground (
  arith,
  byte_at_in buf 0,
  byte_at_in buf 1,
  get_records_reads buf (list_len_at buf / 16) 2,
  length-records_at buf (list_len_at buf / 16) 2,
)

parse-ok :
    (buf : Bytes) (ack : List RecordNumber)
    → parse buf ≡ ok ack
    → (list_len_at buf + 2 ≡ length buf)
      × (list_len_at buf % 16 ≡ 0)
      × (list_len_at buf / 16 ≤ max_records)
      × (ack ≡ records_at buf (list_len_at buf / 16) 2)
unfolding parse
parse-ok buf ack h =
    ground
      (arith, byte_at_in buf 0, byte_at_in buf 1, get_records_reads buf (list_len_at buf / 16) 2)

serialize-written :
    (ack : List RecordNumber) (out_cap : ℕ)
    → length ack ≤ max_records
    → 2 + length ack * 16 ≤ out_cap
    → serialize ack out_cap ≡ ok (written ack)
unfolding serialize
serialize-written ack out_cap small room = ground arith

-- The two bytes of the length and the records are the whole buffer.
written-eq :
    (buf : Bytes) (ack : List RecordNumber)
    → IsBytes buf
    → 2 ≤ length buf
    → length ack * 16 ≡ list_len_at buf
    → put_records ack ≡ drop 2 buf
    → written ack ≡ buf
written-eq (a ∷ b ∷ rest) ack bytes h len records = ground (arith, be16_join a b bytes.0 bytes.1.0)
written-eq (a ∷ []) ack bytes h len records = absurd (omega arith)
written-eq [] ack bytes h len records = absurd (omega arith)

-- What parses serializes to the whole buffer it was parsed from, given room for it.
serialize-parse_ack :
    (buf : Bytes) (ack : List RecordNumber) (out_cap : ℕ)
    → IsBytes buf
    → parse buf ≡ ok ack
    → length buf ≤ out_cap
    → serialize ack out_cap ≡ ok buf
serialize-parse_ack buf ack out_cap bytes h room =
    let (fills, whole, small, e) = parse-ok buf ack h in
    let n : ℕ = list_len_at buf / 16 in
    let count : length ack ≡ n = ap length e ∙ length-records_at buf n 2 in
    let records : put_records ack ≡ drop 2 buf =
      ap put_records e
      ∙ put_records-records_at buf n 2 bytes (omega arith)
      ∙ ap (λ k. take k (drop 2 buf)) (omega (arith, length-drop 2 buf))
      ∙ take_all (drop 2 buf) in
    serialize-written ack out_cap (omega arith) (omega arith)
    ∙ ap ok (written-eq buf ack bytes (omega arith) (omega arith) records)
