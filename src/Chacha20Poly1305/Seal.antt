-- ===== src/Chacha20Poly1305/Seal.antt =====
-- The cipher fulfils the laws that the record layer relies on.
use nano_dtls.Base.{
  ◌≤◌, ◌≡◌, ◌≢◌, refl, sym, ap, ◌∙◌, arith, ◌!=◌, Bytes, IsBytes, length, diff_bytes,
  diff_bytes_total, diff_bytes_same, diff_bytes-zero, ok, err, fault, ◌>>◌, bind-ok, bind-returns,
  ok-injective, fail_if, take, auth_failed,
}
use nano_dtls.Aead.{Sealed, Laws, tag_len, key_len, nonce_len}
use nano_dtls.Chacha20.{block, chacha20_xor}
use nano_dtls.Chacha20.Block.{block-sized, block-returns}
use nano_dtls.Chacha20.Stream.{chacha20_xor_twice, chacha20_xor-length, chacha20_xor-returns}
use nano_dtls.Poly1305.{final, pack}
use nano_dtls.Driver.Accepted.{guard-passed}
use nano_dtls.Chacha20Poly1305.{tag_of, derive_otk, encrypt, decrypt, chacha20_poly1305}

length-tag_of : (otk aad ciphertext : Bytes) → length (tag_of otk aad ciphertext) ≡ tag_len
unfolding final pack
length-tag_of otk aad ciphertext = refl

-- What was sealed: the ciphertext and the tag come from the two steps.
record Steps (key nonce aad plaintext : Bytes) (sealed : Sealed) : Type 0 where
  otk : Bytes
  key_sized : 32 ≤ length key
  nonce_sized : 12 ≤ length nonce
  encrypted : chacha20_xor key nonce 1 plaintext ≡ ok sealed.ciphertext
  one_time : derive_otk key nonce ≡ ok otk
  tagged : sealed.tag ≡ tag_of otk aad sealed.ciphertext

encrypt-Steps :
    (key nonce aad plaintext : Bytes) (sealed : Sealed)
    → encrypt key nonce aad plaintext ≡ ok sealed
    → Steps key nonce aad plaintext sealed
unfolding encrypt
encrypt-Steps key nonce aad plaintext sealed h =
    let (ciphertext, encrypted, h1) = bind-ok (chacha20_xor key nonce 1 plaintext) _ sealed h in
    let (otk, one_time, h2) = bind-ok (derive_otk key nonce) _ sealed h1 in
    let (block0, made, taken) = bind-ok (block key nonce 0) _ otk one_time in
    let (key_sized, nonce_sized) = block-sized key nonce 0 block0 made in
    let same : ciphertext ≡ sealed.ciphertext = ap Sealed.ciphertext (ok-injective _ sealed h2) in
    record {
      otk = otk;
      key_sized = key_sized;
      nonce_sized = nonce_sized;
      encrypted = encrypted ∙ ap ok same;
      one_time = one_time;
      tagged = sym (ap Sealed.tag (ok-injective _ sealed h2)) ∙ ap (tag_of otk aad) same;
    }

decrypt-encrypt :
    (key nonce aad plaintext : Bytes) (sealed : Sealed)
    → IsBytes plaintext
    → encrypt key nonce aad plaintext ≡ ok sealed
    → decrypt key nonce aad sealed ≡ ok plaintext
unfolding decrypt
decrypt-encrypt key nonce aad plaintext sealed bytes h =
    let s = encrypt-Steps key nonce aad plaintext sealed h in
    let (out, went, size, back) =
      chacha20_xor_twice key nonce 1 plaintext s.key_sized s.nonce_sized bytes in
    let same : out ≡ sealed.ciphertext =
      ok-injective out sealed.ciphertext (sym went ∙ s.encrypted) in
    let tag : Bytes = tag_of s.otk aad sealed.ciphertext in
    let compared : diff_bytes 0 tag sealed.tag ≡ ok 0 =
      ap (diff_bytes 0 tag) s.tagged ∙ diff_bytes_same tag in
    bind-returns _ s.one_time
      (bind-returns _ compared (ap (chacha20_xor key nonce 1) (sym same) ∙ back))

decrypt-ok :
    (key nonce aad plaintext : Bytes) (sealed : Sealed)
    → decrypt key nonce aad sealed ≡ ok plaintext
    → chacha20_xor key nonce 1 sealed.ciphertext ≡ ok plaintext
unfolding decrypt
decrypt-ok key nonce aad plaintext sealed h =
    let (otk, one_time, h1) = bind-ok (derive_otk key nonce) _ plaintext h in
    let (diff, compared, h2) =
      bind-ok (diff_bytes 0 (tag_of otk aad sealed.ciphertext) sealed.tag) _ plaintext h1 in
    (guard-passed (diff != 0) _ _ plaintext h2).1

tag_of-IsBytes : (otk aad ciphertext : Bytes) → IsBytes (tag_of otk aad ciphertext)
unfolding final pack
tag_of-IsBytes otk aad ciphertext = omega arith

-- A tag that passes the comparison is the one that encryption makes.
decrypt-encrypt_back :
    (key nonce aad plaintext : Bytes) (sealed : Sealed)
    → IsBytes sealed.ciphertext
    → IsBytes sealed.tag
    → length sealed.tag ≡ tag_len
    → decrypt key nonce aad sealed ≡ ok plaintext
    → encrypt key nonce aad plaintext ≡ ok sealed
unfolding decrypt encrypt
decrypt-encrypt_back key nonce aad plaintext sealed bytes tag_bytes size h =
    let (otk, one_time, h1) = bind-ok (derive_otk key nonce) _ plaintext h in
    let tag : Bytes = tag_of otk aad sealed.ciphertext in
    let (diff, compared, h2) = bind-ok (diff_bytes 0 tag sealed.tag) _ plaintext h1 in
    let (passed, opened) = guard-passed (diff != 0) _ _ plaintext h2 in
    let none : diff ≡ 0 = ground (arith, passed) in
    let (_, same) =
      diff_bytes-zero 0 tag sealed.tag (omega arith) (tag_of-IsBytes otk aad sealed.ciphertext)
        tag_bytes (length-tag_of otk aad sealed.ciphertext ∙ sym size) (compared ∙ ap ok none) in
    let (block0, made, taken) = bind-ok (block key nonce 0) _ otk one_time in
    let (key_sized, nonce_sized) = block-sized key nonce 0 block0 made in
    let (out, went, length_kept, back) =
      chacha20_xor_twice key nonce 1 sealed.ciphertext key_sized nonce_sized bytes in
    let known : out ≡ plaintext = ok-injective out plaintext (sym went ∙ opened) in
    bind-returns _ (ap (chacha20_xor key nonce 1) (sym known) ∙ back)
      (bind-returns _ one_time (λ i. ok (record { ciphertext = sealed.ciphertext; tag = same i })))

decrypt-refused :
    (key nonce aad plaintext : Bytes) (sealed : Sealed) (tag : Bytes)
    → encrypt key nonce aad plaintext ≡ ok sealed
    → IsBytes tag
    → length tag ≡ tag_len
    → tag ≢ sealed.tag
    → decrypt key nonce aad (record sealed { tag = tag }) ≡ err auth_failed
unfolding decrypt
decrypt-refused key nonce aad plaintext sealed tag h bytes size other =
    let s = encrypt-Steps key nonce aad plaintext sealed h in
    let made : Bytes = tag_of s.otk aad sealed.ciphertext in
    let made_size : length made ≡ length tag =
      length-tag_of s.otk aad sealed.ciphertext ∙ sym size in
    let (diff, compared) = diff_bytes_total 0 made tag made_size in
    let different : diff ≢ 0 = λ none. other (
      sym (
        (diff_bytes-zero 0 made tag (omega arith) (tag_of-IsBytes s.otk aad sealed.ciphertext) bytes
          made_size (compared ∙ ap ok none)).1)
      ∙ sym s.tagged) in
    bind-returns _ s.one_time (bind-returns _ compared (ground (arith, different)))

decrypt-defined :
    (key nonce aad : Bytes) (sealed : Sealed)
    → length key ≡ key_len
    → length nonce ≡ nonce_len
    → length sealed.tag ≡ tag_len
    → decrypt key nonce aad sealed ≢ fault
unfolding decrypt
decrypt-defined key nonce aad sealed hk hn ht h =
    let (block0, made) = block-returns key nonce 0 (omega arith) (omega arith) in
    let otk : Bytes = take 32 block0 in
    let tag : Bytes = tag_of otk aad sealed.ciphertext in
    let (diff, compared) =
      diff_bytes_total 0 tag sealed.tag (length-tag_of otk aad sealed.ciphertext ∙ sym ht) in
    let (out, went) =
      chacha20_xor-returns key nonce 1 sealed.ciphertext (omega arith) (omega arith) in
    let run : decrypt key nonce aad sealed ≡ (fail_if (diff != 0) auth_failed >> ok out) =
      bind-returns _ (bind-returns _ made refl)
        (bind-returns _ compared (ap (λ m. fail_if (diff != 0) auth_failed >> m) went)) in
    ground (arith, run, h)

-- The laws of the AEAD interface hold of ChaCha20-Poly1305: the ciphertext is as long as the
-- plaintext, the tag has 16 bytes, decryption gives back the bytes that were sealed, it returns a
-- plaintext for bytes only where encrypting that plaintext gives the same ciphertext and tag, it
-- fails with ND_ERR_AUTH_FAILED for any other 16 bytes than the tag of what was sealed, it keeps the
-- length, and it returns without a fault for a key, a nonce and a tag of their sizes.
pub chacha20_poly1305-Laws : Laws chacha20_poly1305
chacha20_poly1305-Laws = record {
  ciphertext_length = λ key nonce aad plaintext sealed h.
      chacha20_xor-length key nonce 1 plaintext sealed.ciphertext
        (encrypt-Steps key nonce aad plaintext sealed h).encrypted;
  tag_length = λ key nonce aad plaintext sealed h.
      let s = encrypt-Steps key nonce aad plaintext sealed h in
      ap length s.tagged ∙ length-tag_of s.otk aad sealed.ciphertext;
  inverse = decrypt-encrypt;
  authentic = decrypt-encrypt_back;
  refused = decrypt-refused;
  plaintext_length = λ key nonce aad plaintext sealed h.
      chacha20_xor-length key nonce 1 sealed.ciphertext plaintext
        (decrypt-ok key nonce aad plaintext sealed h);
  defined = decrypt-defined;
}

-- Every plaintext is sealed.
pub encrypt-returns :
    (key nonce aad plaintext : Bytes)
    → length key ≡ key_len
    → length nonce ≡ nonce_len
    → (sealed : Sealed) × (chacha20_poly1305.encrypt key nonce aad plaintext ≡ ok sealed)
unfolding encrypt
encrypt-returns key nonce aad plaintext hk hn =
    let (block0, made) = block-returns key nonce 0 (omega arith) (omega arith) in
    let (out, went) = chacha20_xor-returns key nonce 1 plaintext (omega arith) (omega arith) in
    (_, bind-returns _ went (bind-returns _ (bind-returns _ made refl) refl))
