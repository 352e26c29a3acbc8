-- ===== src/Messages/Verify/Accepts.antt =====
-- That a signature that is written is the one that is checked.
use nano_dtls.Base.{
  ℕ, ◌+◌, ◌≤◌, ◌<◌, ◌≡◌, ◌⊎◌, refl, arith, false, ltb, ◌∷◌, ◌++◌, Bytes, length, replicate,
  ltb_of_le,
}
use nano_dtls.Base.{ok, err, bad_length, bind-returns}
use nano_dtls.Wire.Writing.{room_cases}
use nano_dtls.Asn1.{write_ecdsa_sig_value}
use nano_dtls.Asn1.Signature.{signature, write_ecdsa_sig_value_branches, read_signature-written}
use nano_dtls.Sha256.{sha256}
use nano_dtls.Messages.Verify.{
  ecdsa_p256_sha256, content_max, certificate_verify_content, Verify, certificate_verify_check,
}

-- RFC 8446, 4.4.3: the content that is signed.
abbrev pub signed_content : Bytes → Bytes → Bytes
signed_content context_string transcript_hash =
    replicate 64 0x20 ++ (context_string ++ (0 ∷ transcript_hash))

check-written :
    (ecdsa_verify : Verify) (r s context_string transcript_hash qx qy : Bytes)
    → length r ≡ 32
    → length s ≡ 32
    → length context_string ≤ 34
    → certificate_verify_check ecdsa_verify
        (record { algorithm = ecdsa_p256_sha256; signature = signature r s })
        context_string
        transcript_hash
        qx
        qy
      ≡ ecdsa_verify qx qy (sha256 (signed_content context_string transcript_hash)) r s
unfolding certificate_verify_check certificate_verify_content
check-written ecdsa_verify r s context_string transcript_hash qx qy hr hs short =
    let room : ltb content_max (64 + length context_string + 1 + 32) ≡ false =
      ltb_of_le content_max (64 + length context_string + 1 + 32) (omega arith) in
    rw room (bind-returns _ (read_signature-written r s hr hs) refl)

-- For numbers of 32 bytes and a context of at most 34: where the signature does not fit in
-- `out_cap` bytes, the encoder answers `bad_length`; where it fits, it writes the element of the two
-- numbers, and the check of a CertificateVerify with that signature answers what the verification
-- answers for the key, the hash of the content of RFC 8446 and the same two numbers.
pub certificate_verify_check-written :
    (ecdsa_verify : Verify) (r s : Bytes) (out_cap : ℕ)
    (context_string transcript_hash qx qy : Bytes)
    → length r ≡ 32
    → length s ≡ 32
    → length context_string ≤ 34
    → ((out_cap < length (signature r s)) × (write_ecdsa_sig_value r s out_cap ≡ err bad_length))
      ⊎ ((length (signature r s) ≤ out_cap)
          × (write_ecdsa_sig_value r s out_cap ≡ ok (signature r s))
          × (certificate_verify_check ecdsa_verify
                (record { algorithm = ecdsa_p256_sha256; signature = signature r s })
                context_string
                transcript_hash
                qx
                qy
              ≡ ecdsa_verify qx qy (sha256 (signed_content context_string transcript_hash)) r s))
certificate_verify_check-written ecdsa_verify r s out_cap context_string transcript_hash qx qy hr hs
      short =
    room_cases out_cap bad_length (signature r s) (write_ecdsa_sig_value r s out_cap) _
      (write_ecdsa_sig_value_branches r s out_cap hr hs)
      (check-written ecdsa_verify r s context_string transcript_hash qx qy hr hs short)
