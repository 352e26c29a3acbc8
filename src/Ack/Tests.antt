-- ===== src/Ack/Tests.antt =====
-- An ACK of two records.
use nano_dtls.Base.{
  ◌≡◌, refl, [], ◌∷◌, List, arith, Bytes, ok, err, bad_length, truncated, byte_at, be16, take,
}
use nano_dtls.Ack.{RecordNumber, serialize, parse, put_u64, get_u64, put_records, get_records}
use nano_dtls.Ack.RoundTrip.{Explains, parse-serialize_ack, parse_ack_branches}

abbrev two_records : List RecordNumber
two_records =
    record { epoch = 2; sequence_number = 0x0102 } ∷ record { epoch = 3; sequence_number = 7 } ∷ []

abbrev two_bytes : Bytes
two_bytes =
    0 ∷ 32 ∷ 0 ∷ 0 ∷ 0 ∷ 0 ∷ 0 ∷ 0 ∷ 0 ∷ 2 ∷ 0 ∷ 0 ∷ 0 ∷ 0 ∷ 0 ∷ 0 ∷ 1 ∷ 2 ∷ 0 ∷ 0 ∷ 0 ∷ 0 ∷ 0 ∷ 0
    ∷ 0 ∷ 3 ∷ 0 ∷ 0 ∷ 0 ∷ 0 ∷ 0 ∷ 0 ∷ 0 ∷ 7 ∷ []

serialize_runs : serialize two_records 34 ≡ ok two_bytes
unfolding serialize put_records put_u64
serialize_runs = refl

parse_runs : parse two_bytes ≡ ok two_records
unfolding parse get_records get_u64 byte_at be16
parse_runs = refl

refused :
    (serialize two_records 33 ≡ err bad_length)
    × (parse (take 33 two_bytes) ≡ err bad_length)
    × (parse (0 ∷ []) ≡ err truncated)
unfolding serialize parse byte_at be16
refused = (refl, refl, refl)

parse-serialize_ack_example : parse two_bytes ≡ ok two_records
parse-serialize_ack_example =
    parse-serialize_ack two_records two_bytes 34 (omega arith) serialize_runs

parse_ack_branches_example : Explains two_bytes (parse two_bytes)
parse_ack_branches_example = parse_ack_branches two_bytes
