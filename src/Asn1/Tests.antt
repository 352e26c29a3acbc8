-- ===== src/Asn1/Tests.antt =====
-- Elements and signatures at concrete values.
use nano_dtls.Base.{ℕ, ◌<◌, ◌≡◌, refl, arith, [], ◌∷◌, replicate, ok, err, bad_length}
use nano_dtls.Asn1.{parse_tlv}
use nano_dtls.Asn1.Safe.{Inside, parse_tlv-Inside}

-- A length of eight bytes that wraps is refused.
parse_wraps : parse_tlv (4 ∷ 0x88 ∷ replicate 8 255) ≡ err bad_length
unfolding parse_tlv nano_dtls.Asn1.long_length nano_dtls.Asn1.length_bytes nano_dtls.Base.byte_at
parse_wraps = refl

parse_tlv-Inside_example : Inside (2 ∷ 0x81 ∷ 1 ∷ 7 ∷ []) (parse_tlv (2 ∷ 0x81 ∷ 1 ∷ 7 ∷ []))
parse_tlv-Inside_example =
    parse_tlv-Inside (2 ∷ 0x81 ∷ 1 ∷ 7 ∷ [])
      (omega arith, (omega arith, (omega arith, (omega arith, tt)))) (omega arith)
