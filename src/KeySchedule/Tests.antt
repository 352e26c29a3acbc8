-- ===== src/KeySchedule/Tests.antt =====
-- The key schedule at concrete secrets, with the prefix of DTLS 1.3.
use nano_dtls.Base.{
  ◌≡◌, ◌↔◌, ◌⊎◌, refl, arith, [], ◌∷◌, Bytes, length, replicate, ok, err, auth_failed,
}
use nano_dtls.Aead.{key_len, nonce_len}
use nano_dtls.KeySchedule.{derive_handshake_keys, finished_compute, finished_verify}
use nano_dtls.KeySchedule.Derive.{schedule, derive_handshake_keys_lem}
use nano_dtls.KeySchedule.Finished.{finished_verify_iff}

abbrev dtls13 : Bytes
dtls13 = b'd' ∷ b't' ∷ b'l' ∷ b's' ∷ b'1' ∷ b'3' ∷ []

abbrev some_hash : Bytes
some_hash = replicate 32 5

derive_handshake_keys_lem_example :
    (derive_handshake_keys dtls13 (replicate 32 9) some_hash
      ≡ ok (schedule dtls13 (replicate 32 9) some_hash))
    × (length (schedule dtls13 (replicate 32 9) some_hash).client_write_key ≡ key_len)
    × (length (schedule dtls13 (replicate 32 9) some_hash).client_write_iv ≡ nonce_len)
    × (length (schedule dtls13 (replicate 32 9) some_hash).server_write_key ≡ key_len)
    × (length (schedule dtls13 (replicate 32 9) some_hash).server_write_iv ≡ nonce_len)
derive_handshake_keys_lem_example =
    derive_handshake_keys_lem dtls13 (replicate 32 9) some_hash (omega arith) refl

finished_verify_iff_example :
    ((finished_verify dtls13 some_hash some_hash (replicate 32 1) ≡ ok tt)
      ↔ (finished_compute dtls13 some_hash some_hash ≡ ok (replicate 32 1)))
    × ((finished_verify dtls13 some_hash some_hash (replicate 32 1) ≡ ok tt)
        ⊎ (finished_verify dtls13 some_hash some_hash (replicate 32 1) ≡ err auth_failed))
finished_verify_iff_example =
    finished_verify_iff dtls13 some_hash some_hash (replicate 32 1) (omega arith) (omega arith) refl
