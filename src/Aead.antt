-- ===== src/Aead.antt =====
-- The AEAD of include/nanodtls/aead.h as an interface: the two operations of an implementation, and
-- the laws that the record layer relies on.
pub mod Toy
use nano_dtls.Base.{ℕ, ◌≡◌, ◌≢◌}
use nano_dtls.Base.{Bytes, IsBytes, length, Result, ok, err, fault, auth_failed}

abbrev pub tag_len : ℕ
tag_len = 16

abbrev pub key_len : ℕ
key_len = 32

abbrev pub nonce_len : ℕ
nonce_len = 12

-- What `nd_aead_chacha20poly1305_encrypt` writes.
pub record Sealed : Type 0 where
  pub ciphertext : Bytes
  pub tag : Bytes

-- The arguments are the key, the nonce, the additional data, and the plaintext or what it was
-- sealed to.
pub record Aead : Type 0 where
  pub encrypt : Bytes → Bytes → Bytes → Bytes → Result Sealed
  pub decrypt : Bytes → Bytes → Bytes → Sealed → Result Bytes

-- The ciphertext is as long as the plaintext, the tag has its size, decryption inverts encryption,
-- it returns for nothing but what encryption makes and refuses any other tag, and it reads inside
-- arrays of the sizes it is declared with.
pub record Laws (aead : Aead) : Type 0 where
  pub ciphertext_length :
      (key nonce aad plaintext : Bytes) (sealed : Sealed)
      → aead.encrypt key nonce aad plaintext ≡ ok sealed
      → length sealed.ciphertext ≡ length plaintext
  pub tag_length :
      (key nonce aad plaintext : Bytes) (sealed : Sealed)
      → aead.encrypt key nonce aad plaintext ≡ ok sealed
      → length sealed.tag ≡ tag_len
  pub inverse :
      (key nonce aad plaintext : Bytes) (sealed : Sealed)
      → IsBytes plaintext
      → aead.encrypt key nonce aad plaintext ≡ ok sealed
      → aead.decrypt key nonce aad sealed ≡ ok plaintext
  pub authentic :
      (key nonce aad plaintext : Bytes) (sealed : Sealed)
      → IsBytes sealed.ciphertext
      → IsBytes sealed.tag
      → length sealed.tag ≡ tag_len
      → aead.decrypt key nonce aad sealed ≡ ok plaintext
      → aead.encrypt key nonce aad plaintext ≡ ok sealed
  pub refused :
      (key nonce aad plaintext : Bytes) (sealed : Sealed) (tag : Bytes)
      → aead.encrypt key nonce aad plaintext ≡ ok sealed
      → IsBytes tag
      → length tag ≡ tag_len
      → tag ≢ sealed.tag
      → aead.decrypt key nonce aad (record sealed { tag = tag }) ≡ err auth_failed
  pub plaintext_length :
      (key nonce aad plaintext : Bytes) (sealed : Sealed)
      → aead.decrypt key nonce aad sealed ≡ ok plaintext
      → length plaintext ≡ length sealed.ciphertext
  pub defined :
      (key nonce aad : Bytes) (sealed : Sealed)
      → length key ≡ key_len
      → length nonce ≡ nonce_len
      → length sealed.tag ≡ tag_len
      → aead.decrypt key nonce aad sealed ≢ fault
