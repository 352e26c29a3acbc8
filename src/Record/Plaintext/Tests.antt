-- ===== src/Record/Plaintext/Tests.antt =====
-- The DTLSPlaintext header at concrete records.
use nano_dtls.Base.{◌≡◌, refl, ◌++◌, [], ◌∷◌, arith, take}
use nano_dtls.Base.{Bytes, bytes_of, ok, err, truncated, bad_length, byte_at, be16}
use nano_dtls.Record.Plaintext.{PlaintextHdr, Parsed, be48, parse, header_bytes, serialize}
use nano_dtls.Record.Plaintext.RoundTrip.{sent, Fits, parse-serialize_plaintext}

-- A handshake record with three bytes in it, and one byte behind it.
abbrev record_bytes : Bytes
record_bytes = 22 ∷ 254 ∷ 253 ∷ 0 ∷ 1 ∷ 0 ∷ 0 ∷ 0 ∷ 0 ∷ 1 ∷ 2 ∷ 0 ∷ 3 ∷ 7 ∷ 8 ∷ 9 ∷ 99 ∷ []

abbrev record_hdr : PlaintextHdr
record_hdr = record {
  type = 22;
  legacy_version = 0xfefd;
  epoch = 1;
  sequence_number = 258;
  length = 3;
}

abbrev record_parsed : Parsed
record_parsed = record { hdr = record_hdr; fragment = record { offset = 13; len = 3 } }

parse_runs : parse record_bytes ≡ ok record_parsed
unfolding parse byte_at be16 be48
parse_runs = refl

parse_cut :
    (parse (take 12 record_bytes) ≡ err truncated) × (parse (take 15 record_bytes) ≡ err bad_length)
unfolding parse byte_at be16 be48
parse_cut = (refl, refl)

serialize_runs : serialize record_hdr (7 ∷ 8 ∷ 9 ∷ []) 16 ≡ ok (take 16 record_bytes)
unfolding serialize header_bytes
serialize_runs = refl

record_Fits : Fits record_hdr
record_Fits = omega arith

parse-serialize_plaintext_example :
    (p : Parsed) × (parse (take 16 record_bytes ++ 99 ∷ []) ≡ ok p)
    × (p.hdr ≡ sent record_hdr (7 ∷ 8 ∷ 9 ∷ []))
    × (bytes_of (take 16 record_bytes ++ 99 ∷ []) p.fragment ≡ 7 ∷ 8 ∷ 9 ∷ [])
parse-serialize_plaintext_example =
    parse-serialize_plaintext record_hdr (7 ∷ 8 ∷ 9 ∷ []) (99 ∷ []) (take 16 record_bytes) 16
      record_Fits serialize_runs
