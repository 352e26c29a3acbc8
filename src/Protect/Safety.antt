-- ===== src/Protect/Safety.antt =====
-- `nd_record_unprotect` on any input.
use nano_dtls.Base.{
  ℕ, zero, suc, ◌+◌, ◌-◌, ◌≤◌, ◌≡◌, ◌≢◌, refl, ap, ◌∙◌, arith, ◌!=◌, ltb, if◌then◌else◌, ◌⊎◌, inl,
  Bytes, length, get_or, take, drop, byte_at_in, length-take, length-drop, Within,
}
use nano_dtls.Base.{false, Result, ok, err, fault, bind-all, guard-all, bad_length, unsupported}
use nano_dtls.Record.Unified.{Parsed}
use nano_dtls.Record.Unified
use nano_dtls.Record.Unified.Reads.{Describes, parse_unified-Describes}
use nano_dtls.Record.Reconstruct.{reconstruct_epoch, reconstruct_sequence_number}
use nano_dtls.Aead.{Aead, Sealed, Laws, key_len, nonce_len, tag_len}
use nano_dtls.Protect.{
  max_inner, Unprotection, Unprotected, content_end, finish, sealed_at, open_record, unprotect,
  build_nonce,
}
use nano_dtls.Protect.Nonce.{length-build_nonce}

-- Where the padding ends: behind a byte that is not zero, or at the start.
abbrev Stops : Bytes → ℕ → Result ℕ → Type 0
Stops inner n (ok k) = (k ≤ n) × ((k ≡ 0) ⊎ (get_or inner (k - 1) 0 ≢ 0))
Stops inner n (err e) = ⊥
Stops inner n fault = ⊥

Stops-suc : (inner : Bytes) (n : ℕ) (r : Result ℕ) → Stops inner n r → Stops inner (suc n) r
Stops-suc inner n (ok k) h = (omega arith, h.1)
Stops-suc inner n (err e) h = elim h [ ]
Stops-suc inner n fault h = elim h [ ]

content_end-Stops : (inner : Bytes) (n : ℕ) → n ≤ length inner → Stops inner n (content_end inner n)
unfolding content_end
content_end-Stops inner zero h = (omega arith, inl refl)
content_end-Stops inner (suc n) h =
    let rest : Stops inner (suc n) (content_end inner n) =
      Stops-suc inner n (content_end inner n) (content_end-Stops inner n (omega arith)) in
    rw (byte_at_in inner n (omega arith)) (ground arith)

-- What a result of the reader says: a record that fits the output, with a content type, that
-- leaves keys and epoch alone and never lowers the highest sequence number. There is no fault.
abbrev pub Sound : Unprotection → ℕ → Result Unprotected → Type 0
Sound u plaintext_cap (ok r) =
    (length r.plaintext ≤ plaintext_cap)
    × (r.content_type ≢ 0)
    × (r.state.read_key ≡ u.read_key)
    × (r.state.read_iv ≡ u.read_iv)
    × (r.state.epoch ≡ u.epoch)
    × (u.highest_seen_sequence ≤ r.state.highest_seen_sequence)
Sound u plaintext_cap (err e) = Unit {0}
Sound u plaintext_cap fault = ⊥

finish-Sound :
    (u : Unprotection) (seq : ℕ) (inner : Bytes) (n plaintext_cap : ℕ)
    → n ≤ length inner
    → Sound u plaintext_cap (finish u seq inner n plaintext_cap)
unfolding finish
finish-Sound u seq inner n plaintext_cap inside =
    let stops : Stops inner n (content_end inner n) = content_end-Stops inner n inside in
    bind-all (Sound u plaintext_cap) (content_end inner n) _ (λ e. rw e at stops) (λ e. tt)
      (λ k e.
        let stop : Stops inner n (ok k) = rw e at stops in
        ground (arith, byte_at_in inner (k - 1), length-take (k - 1) inner, stop))

-- The full sequence number of a record.
abbrev number : Unprotection → Parsed → ℕ
number u parsed =
    reconstruct_sequence_number u.highest_seen_sequence parsed.hdr.sequence_number
      (if parsed.hdr.seq_len_is_16bit then 16 else 8)

le_of_ltb : (a b : ℕ) → ltb a b ≡ false → b ≤ a
le_of_ltb a b h = ground arith

module _ (aead : Aead) (laws : Laws aead) where
  open_record-Sound :
      (u : Unprotection) (buf : Bytes) (parsed : Parsed) (plaintext_cap : ℕ)
      → length u.read_key ≡ key_len
      → length u.read_iv ≡ nonce_len
      → Within buf parsed.payload
      → Sound u plaintext_cap (open_record aead u buf parsed plaintext_cap)
  unfolding open_record
  open_record-Sound u buf parsed plaintext_cap key iv inside =
      let n : ℕ = parsed.payload.len - tag_len in
      let at : ℕ = parsed.payload.offset in
      let seq : ℕ = number u parsed in
      let sealed : Sealed = sealed_at buf at n in
      let nonce : Bytes = build_nonce u.read_iv seq in
      let header : Bytes = take at buf in
      guard-all (Sound u plaintext_cap) (reconstruct_epoch u.epoch parsed.hdr.epoch_low2 != u.epoch)
        unsupported _ tt
        (λ same.
          guard-all (Sound u plaintext_cap) (ltb parsed.payload.len tag_len) bad_length _ tt
            (λ long. guard-all (Sound u plaintext_cap) (ltb max_inner n) bad_length _ tt (λ short.
              let tagged : length sealed.tag ≡ tag_len = omega (
                arith,
                length-take tag_len (drop (at + n) buf),
                length-drop (at + n) buf,
                le_of_ltb parsed.payload.len tag_len long,
              ) in
              let size : length sealed.ciphertext ≡ n =
                omega (arith, length-take n (drop at buf), length-drop at buf) in
              bind-all (Sound u plaintext_cap) (aead.decrypt u.read_key nonce header sealed) _
                (laws.defined u.read_key nonce header sealed key
                  (length-build_nonce u.read_iv seq iv) tagged)
                (λ e. tt)
                (λ inner e.
                  let held : length inner ≡ n =
                    laws.plaintext_length u.read_key nonce header inner sealed e ∙ size in
                  let room : ltb max_inner (length inner) ≡ false =
                    ap (ltb max_inner) held ∙ short in
                  rw room (finish-Sound u seq inner n plaintext_cap (omega arith))))))

  -- On no input does the reader fault. A plaintext that it returns fits the output, with a content
  -- type that is not zero; keys and epoch stay, and the highest sequence number never falls.
  pub unprotect_safe :
      (u : Unprotection) (buf : Bytes) (plaintext_cap : ℕ)
      → length u.read_key ≡ key_len
      → length u.read_iv ≡ nonce_len
      → Sound u plaintext_cap (unprotect aead u buf plaintext_cap)
  unfolding unprotect
  unprotect_safe u buf plaintext_cap key iv =
      let described : Describes buf 0 (Unified.parse buf 0) =
        parse_unified-Describes buf 0 (omega arith) in
      bind-all (Sound u plaintext_cap) (Unified.parse buf 0) _ (λ e. rw e at described) (λ e. tt)
        (λ parsed e.
          let found : Describes buf 0 (ok parsed) = rw e at described in
          open_record-Sound u buf parsed plaintext_cap key iv found.2)
