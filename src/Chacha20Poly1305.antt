-- ===== src/Chacha20Poly1305.antt =====
-- The AEAD of src/crypto/aead_chacha20poly1305.c. Pointers are valid, so the tests for NULL fall
-- away.
pub mod Seal
use nano_dtls.Base.{
  ℕ, ◌+◌, ◌*◌, ◌-◌, ◌%◌, ◌==◌, ◌!=◌, [], ◌∷◌, ◌++◌, if◌then◌else◌, Bytes, length, take, replicate,
  u8, ◌>>>◌, diff_bytes, Result, ok, ◌>>=◌, ◌>>◌, fail_if, auth_failed,
}
use nano_dtls.Aead.{Aead, Sealed}
use nano_dtls.Chacha20.{block, chacha20_xor}
use nano_dtls.Poly1305.{Ctx, init, update, final}

abbrev pub store_le64 : ℕ → Bytes
store_le64 x =
    u8 x
    ∷ u8 (x >>> 8)
    ∷ u8 (x >>> 16)
    ∷ u8 (x >>> 24)
    ∷ u8 (x >>> 32)
    ∷ u8 (x >>> 40)
    ∷ u8 (x >>> 48)
    ∷ u8 (x >>> 56)
    ∷ []

-- An update with zeros up to a multiple of 16 bytes.
abbrev pub pad16 : Ctx → ℕ → Ctx
pad16 mac len =
    let pad = (16 - len % 16) % 16 in if pad == 0 then mac else update mac (replicate pad 0)

unfoldable pub mac_aad_and_ciphertext : Ctx → Bytes → Bytes → Ctx
mac_aad_and_ciphertext mac aad ciphertext =
    let mac1 = pad16 (update mac aad) (length aad) in
    let mac2 = pad16 (update mac1 ciphertext) (length ciphertext) in
    update mac2 (store_le64 (length aad) ++ store_le64 (length ciphertext))

abbrev pub derive_otk : Bytes → Bytes → Result Bytes
derive_otk key nonce = do block0 ← block key nonce 0; ok (take 32 block0)

-- The tag of the additional data and a ciphertext.
abbrev pub tag_of : Bytes → Bytes → Bytes → Bytes
tag_of otk aad ciphertext = final (mac_aad_and_ciphertext (init otk) aad ciphertext)

-- `nd_aead_chacha20poly1305_encrypt`
unfoldable pub encrypt : Bytes → Bytes → Bytes → Bytes → Result Sealed
encrypt key nonce aad plaintext = do
  ciphertext ← chacha20_xor key nonce 1 plaintext
  otk ← derive_otk key nonce
  ok (record { ciphertext = ciphertext; tag = tag_of otk aad ciphertext })

-- `nd_aead_chacha20poly1305_decrypt`
unfoldable pub decrypt : Bytes → Bytes → Bytes → Sealed → Result Bytes
decrypt key nonce aad sealed = do
  otk ← derive_otk key nonce
  diff ← diff_bytes 0 (tag_of otk aad sealed.ciphertext) sealed.tag
  fail_if (diff != 0) auth_failed
  chacha20_xor key nonce 1 sealed.ciphertext

-- The interface that the record layer is given.
abbrev pub chacha20_poly1305 : Aead
chacha20_poly1305 = record { encrypt = encrypt; decrypt = decrypt }
