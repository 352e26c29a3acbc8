-- ===== src/Aead/Toy.antt =====
-- An AEAD without secrecy, for the tests.
use nano_dtls.Base.{
  ◌!=◌, ◌≡◌, ◌≢◌, refl, ap, sym, ◌∙◌, arith, Bytes, IsBytes, length, replicate, u8, Result, ok, err,
  fault, auth_failed, ok-injective, ◌>>=◌, ◌>>◌, fail_if, bind-ok, bind-returns, diff_bytes,
  diff_bytes_same, diff_bytes-zero, diff_bytes_total,
}
use nano_dtls.Driver.Accepted.{guard-passed}
use nano_dtls.Aead.{Aead, Sealed, Laws, tag_len}

abbrev pub toy_seal : Bytes → Bytes → Bytes → Bytes → Result Sealed
toy_seal key nonce aad plaintext =
    ok (record { ciphertext = plaintext; tag = replicate tag_len (u8 (length aad)) })

abbrev toy_tag : Bytes → Bytes
toy_tag aad = replicate tag_len (u8 (length aad))

toy_tag-IsBytes : (aad : Bytes) → IsBytes (toy_tag aad)
toy_tag-IsBytes aad = omega arith

abbrev pub toy_open : Bytes → Bytes → Bytes → Sealed → Result Bytes
toy_open key nonce aad sealed = do
  diff ← diff_bytes 0 (toy_tag aad) sealed.tag
  fail_if (diff != 0) auth_failed
  ok sealed.ciphertext

abbrev pub toy : Aead
toy = record { encrypt = toy_seal; decrypt = toy_open }

toy_sealed :
    (key nonce aad plaintext : Bytes) (sealed : Sealed)
    → toy_seal key nonce aad plaintext ≡ ok sealed
    → record { ciphertext = plaintext; tag = replicate tag_len (u8 (length aad)) } ≡ sealed
toy_sealed key nonce aad plaintext sealed h =
    ok-injective (record { ciphertext = plaintext; tag = replicate tag_len (u8 (length aad)) })
      sealed h

toy_opened :
    (key nonce aad plaintext : Bytes) (sealed : Sealed)
    → toy_open key nonce aad sealed ≡ ok plaintext
    → (diff_bytes 0 (toy_tag aad) sealed.tag ≡ ok 0) × (sealed.ciphertext ≡ plaintext)
toy_opened key nonce aad plaintext sealed h =
    let (diff, compared, h1) = bind-ok (diff_bytes 0 (toy_tag aad) sealed.tag) _ plaintext h in
    let (passed, opened) = guard-passed (diff != 0) _ _ plaintext h1 in
    let none : diff ≡ 0 = ground (arith, passed) in
    (compared ∙ ap ok none, ok-injective sealed.ciphertext plaintext opened)

toy_authentic :
    (key nonce aad plaintext : Bytes) (sealed : Sealed)
    → IsBytes sealed.ciphertext
    → IsBytes sealed.tag
    → length sealed.tag ≡ tag_len
    → toy_open key nonce aad sealed ≡ ok plaintext
    → toy_seal key nonce aad plaintext ≡ ok sealed
toy_authentic key nonce aad plaintext sealed bytes tag_bytes size h =
    let (compared, opened) = toy_opened key nonce aad plaintext sealed h in
    let same : toy_tag aad ≡ sealed.tag =
      (diff_bytes-zero 0 (toy_tag aad) sealed.tag (omega arith) (toy_tag-IsBytes aad) tag_bytes
        (sym size) compared).1 in
    λ i. ok (record { ciphertext = sym opened i; tag = same i })

toy_refused :
    (key nonce aad plaintext : Bytes) (sealed : Sealed) (tag : Bytes)
    → toy_seal key nonce aad plaintext ≡ ok sealed
    → IsBytes tag
    → length tag ≡ tag_len
    → tag ≢ sealed.tag
    → toy_open key nonce aad (record sealed { tag = tag }) ≡ err auth_failed
toy_refused key nonce aad plaintext sealed tag h bytes size other =
    let (diff, compared) = diff_bytes_total 0 (toy_tag aad) tag (sym size) in
    let made : toy_tag aad ≡ sealed.tag =
      ap Sealed.tag (toy_sealed key nonce aad plaintext sealed h) in
    let different : diff ≢ 0 = λ none. other (
      sym (
        (diff_bytes-zero 0 (toy_tag aad) tag (omega arith) (toy_tag-IsBytes aad) bytes (sym size)
          (compared ∙ ap ok none)).1)
      ∙ made) in
    bind-returns _ compared (ground (arith, different))

toy_defined :
    (key nonce aad : Bytes) (sealed : Sealed)
    → length sealed.tag ≡ tag_len
    → toy_open key nonce aad sealed ≢ fault
toy_defined key nonce aad sealed size h =
    let (diff, compared) = diff_bytes_total 0 (toy_tag aad) sealed.tag (sym size) in
    let run : toy_open key nonce aad sealed
        ≡ (fail_if (diff != 0) auth_failed >> ok sealed.ciphertext) =
      bind-returns _ compared refl in
    ground (arith, run, h)

pub toy-Laws : Laws toy
toy-Laws = record {
  ciphertext_length = λ key nonce aad plaintext sealed h.
      ap (λ s. length s.ciphertext) (sym (toy_sealed key nonce aad plaintext sealed h));
  tag_length = λ key nonce aad plaintext sealed h.
      ap (λ s. length s.tag) (sym (toy_sealed key nonce aad plaintext sealed h));
  inverse = λ key nonce aad plaintext sealed bytes h.
      rw (sym (toy_sealed key nonce aad plaintext sealed h))
        (bind-returns _ (diff_bytes_same (toy_tag aad)) refl);
  authentic = toy_authentic;
  refused = toy_refused;
  plaintext_length = λ key nonce aad plaintext sealed h.
      ap length (sym (toy_opened key nonce aad plaintext sealed h).1);
  defined = λ key nonce aad sealed hk hn ht. toy_defined key nonce aad sealed ht;
}
