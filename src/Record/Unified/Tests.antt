-- ===== src/Record/Unified/Tests.antt =====
-- The unified header at concrete records.
use nano_dtls.Base.{◌-◌, ◌^◌, fault, ◌≡◌, refl, inr, arith, true, false, ◌++◌, [], ◌∷◌}
use nano_dtls.Base.{Bytes, ok, err, bad_arg, not_unified, truncated, bad_length, byte_at, be16}
use nano_dtls.Record.Unified.{
  UnifiedHdr, Parsed, parse, parse_rest, read_seq, read_length, flags, header_bytes, serialize,
}
use nano_dtls.Record.Unified.Reads.{Describes, parse_unified-Describes}
use nano_dtls.Record.Unified.RoundTrip.{Received, parse-serialize_unified}

-- A connection ID of two bytes, a sequence number of two bytes, a length, three bytes.
abbrev full_bytes : Bytes
full_bytes = 0x3d ∷ 7 ∷ 8 ∷ 1 ∷ 2 ∷ 0 ∷ 3 ∷ 4 ∷ 5 ∷ 6 ∷ []

abbrev full_hdr : UnifiedHdr Bytes
full_hdr = record {
  cid_present = true;
  seq_len_is_16bit = true;
  length_present = true;
  epoch_low2 = 5;
  cid = 7 ∷ 8 ∷ [];
  sequence_number = 258;
  length = 0;
}

-- The shortest header, in front of two bytes.
abbrev short_bytes : Bytes
short_bytes = 0x22 ∷ 9 ∷ 4 ∷ 5 ∷ []

serialize_runs : serialize full_hdr (4 ∷ 5 ∷ 6 ∷ []) 10 ≡ ok full_bytes
unfolding serialize header_bytes flags
serialize_runs = refl

serialize_full : serialize full_hdr (4 ∷ 5 ∷ 6 ∷ []) 9 ≡ err bad_length
unfolding serialize
serialize_full = refl

parse_runs :
    parse short_bytes 2
    ≡ ok (record {
      hdr = record {
        cid_present = false;
        seq_len_is_16bit = false;
        length_present = false;
        epoch_low2 = 2;
        cid = record { offset = 0; len = 0 };
        sequence_number = 9;
        length = 2;
      };
      payload = record { offset = 2; len = 2 };
    })
unfolding parse parse_rest read_seq read_length byte_at
parse_runs = refl

parse_fails :
    (parse (0x16 ∷ 9 ∷ []) 0 ≡ err not_unified)
    × (parse full_bytes 0 ≡ err bad_arg)
    × (parse (0x3d ∷ 7 ∷ []) 2 ≡ err truncated)
    × (parse (0x24 ∷ 1 ∷ 0 ∷ 1 ∷ []) 0 ≡ err bad_length)
unfolding parse parse_rest read_seq read_length byte_at be16
parse_fails = (refl, refl, refl, refl)

-- The size of the header wraps for a connection ID of nearly 2^64 bytes.
parse_wraps : parse (0x38 ∷ 9 ∷ []) (2 ^ 64 - 2) ≡ fault
unfolding parse parse_rest read_seq byte_at
parse_wraps = refl

parse_unified-Describes_example : Describes full_bytes 2 (parse full_bytes 2)
parse_unified-Describes_example = parse_unified-Describes full_bytes 2 (omega arith)

parse-serialize_unified_example :
    (p : Parsed) × (parse (full_bytes ++ short_bytes) 2 ≡ ok p)
    × Received (full_bytes ++ short_bytes) full_hdr (4 ∷ 5 ∷ 6 ∷ []) p
parse-serialize_unified_example =
    parse-serialize_unified full_hdr (4 ∷ 5 ∷ 6 ∷ []) short_bytes full_bytes 10 2 (omega arith)
      (omega arith) (omega arith) (inr refl) (omega arith) serialize_runs
