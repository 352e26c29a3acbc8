-- ===== src/Handshake/Header/Tests.antt =====
-- The handshake header at concrete fragments.
use nano_dtls.Base.{◌≡◌, refl, ◌++◌, [], ◌∷◌, arith, take}
use nano_dtls.Base.{Bytes, bytes_of, ok, err, truncated, bad_length, bad_arg, byte_at, be16, be24}
use nano_dtls.Handshake.Header.{HandshakeHdr, Parsed, parse, header_bytes, serialize}
use nano_dtls.Handshake.Header.RoundTrip.{parse-serialize_handshake}

-- The second fragment, two bytes of five, of a Finished message, and one byte behind it.
abbrev fragment_bytes : Bytes
fragment_bytes = 20 ∷ 0 ∷ 0 ∷ 5 ∷ 0 ∷ 4 ∷ 0 ∷ 0 ∷ 3 ∷ 0 ∷ 0 ∷ 2 ∷ 7 ∷ 8 ∷ 99 ∷ []

abbrev fragment_hdr : HandshakeHdr
fragment_hdr = record {
  msg_type = 20;
  length = 5;
  message_seq = 4;
  fragment_offset = 3;
  fragment_length = 2;
}

abbrev fragment_parsed : Parsed
fragment_parsed = record { hdr = fragment_hdr; fragment = record { offset = 12; len = 2 } }

parse_runs : parse fragment_bytes ≡ ok fragment_parsed
unfolding parse byte_at be16 be24
parse_runs = refl

parse_cut :
    (parse (take 11 fragment_bytes) ≡ err truncated)
    × (parse (take 13 fragment_bytes) ≡ err bad_length)
unfolding parse byte_at be16 be24
parse_cut = (refl, refl)

serialize_runs : serialize fragment_hdr (7 ∷ 8 ∷ []) 14 ≡ ok (take 14 fragment_bytes)
unfolding serialize header_bytes
serialize_runs = refl

serialize_refuses :
    (serialize fragment_hdr (7 ∷ []) 14 ≡ err bad_arg)
    × (serialize fragment_hdr (7 ∷ 8 ∷ []) 13 ≡ err bad_length)
unfolding serialize header_bytes
serialize_refuses = (refl, refl)

parse-serialize_handshake_example :
    (p : Parsed) × (parse (take 14 fragment_bytes ++ 99 ∷ []) ≡ ok p)
    × (p.hdr ≡ fragment_hdr)
    × (bytes_of (take 14 fragment_bytes ++ 99 ∷ []) p.fragment ≡ 7 ∷ 8 ∷ [])
parse-serialize_handshake_example =
    parse-serialize_handshake fragment_hdr (7 ∷ 8 ∷ []) (99 ∷ []) (take 14 fragment_bytes) 14
      (omega arith) serialize_runs
