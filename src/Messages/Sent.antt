-- ===== src/Messages/Sent.antt =====
-- What the server writes for EncryptedExtensions and CertificateVerify, the client reads.
use nano_dtls.Base.{
  be16, ◌^◌, ◌<◌, ◌≡◌, ◌==◌, true, not, length-append, refl, ap, sym, ◌∙◌, arith, [], ◌∷◌, ◌++◌,
  Bytes, length, u8, ◌>>>◌, ok, truncated, bad_length,
}
use mathlib.Core.List.{append-nil}
use nano_dtls.Wire.Reading.{at, vec16, r_u16-at, step, read_vec16, value-ok}
use nano_dtls.Wire.{r_u16, r_skip, r_bytes, pure, refuse, ◌>>◌}
use nano_dtls.Messages.{
  encrypted_extensions_serialize, encrypted_extensions_parse, certificate_verify_parse,
}
use nano_dtls.Messages.Verify.{ecdsa_p256_sha256}

spent_test : (pre : Bytes) → (length pre == length (pre ++ [])) ≡ true
spent_test pre = ground (arith, length-append pre [])

pub certificate_verify_parse-written :
    (sig : Bytes)
    → length sig < 2 ^ 16
    → certificate_verify_parse (0x04 ∷ 0x03 ∷ u8 (length sig >>> 8) ∷ u8 (length sig) ∷ sig)
      ≡ ok (record { algorithm = ecdsa_p256_sha256; signature = sig })
unfolding certificate_verify_parse
certificate_verify_parse-written sig short =
    ap certificate_verify_parse
      (sym (append-nil (0x04 ∷ 0x03 ∷ u8 (length sig >>> 8) ∷ u8 (length sig) ∷ sig)))
    ∙ value-ok {s = at (4 ∷ 3 ∷ vec16 sig) []} (
        step _ (r_u16-at truncated [] (vec16 sig ++ []) 0x0403 (omega arith)) (
          read_vec16 _ _ (4 ∷ 3 ∷ []) sig [] _ short (
            ap
              (λ b.
                (refuse (not b) bad_length
                    >> pure (record { algorithm = ecdsa_p256_sha256; signature = sig }))
                  (at (4 ∷ 3 ∷ vec16 sig) []))
              (spent_test (4 ∷ 3 ∷ vec16 sig)))))

pub encrypted_extensions_parse-sent :
    (encrypted_extensions_serialize 2 ≡ ok (0 ∷ 0 ∷ []))
    × (encrypted_extensions_parse (0 ∷ 0 ∷ []) ≡ ok tt)
unfolding encrypted_extensions_serialize encrypted_extensions_parse r_u16 r_skip r_bytes be16
encrypted_extensions_parse-sent = (refl, refl)
