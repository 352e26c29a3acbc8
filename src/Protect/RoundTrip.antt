-- ===== src/Protect/RoundTrip.antt =====
-- `nd_record_unprotect` inverts `nd_record_protect`.
use nano_dtls.Base.{
  ℕ, ◌+◌, ◌-◌, ◌*◌, ◌%◌, ◌^◌, ◌≤◌, ◌<◌, ◌≡◌, ◌≢◌, refl, sym, ap, ◌∙◌, arith, ◌++◌, [], ◌∷◌, true,
  inl, inr, bit_and, bit_and_mask, u16, u64, if◌then◌else◌,
}
use nano_dtls.Base.{
  IsBytes, IsBytes-append, Bytes, length, take, length-append, Result, ok, ◌>>=◌, bind-ok,
  ok-injective, false,
}
use nano_dtls.Record.Reconstruct.{reconstruct_epoch, reconstruct_sequence_number}
use nano_dtls.Record.Reconstruct.Epoch.{reconstruct_epoch_recovers}
use nano_dtls.Record.Reconstruct.Sequence.{reconstruct_sequence_recovers}
use nano_dtls.Record.Unified.{Parsed}
use nano_dtls.Record.Unified
use nano_dtls.Record.Unified.Reads.{parsed_at}
use nano_dtls.Record.Unified.RoundTrip.{parse_serialized}
use nano_dtls.Aead.{Aead, Sealed, Laws, tag_len}
use nano_dtls.Protect.{
  Protection, Unprotection, Protected, protect, open_record, unprotect, finish, build_nonce,
  write_fixed_shape_header, header_len, max_inner, sealed_at,
}
use nano_dtls.Protect.Header.{fixed_shape, serialize-write_fixed_shape_header}
use nano_dtls.Protect.Opening.{seen, finish_content, sealed_at_payload, header_taken}

-- The header of a record that carries `n` bytes of plaintext.
abbrev pub header_of : Protection → ℕ → Bytes
header_of p n =
    write_fixed_shape_header (u16 (bit_and p.epoch 0x3)) (u16 (bit_and p.next_send_sequence 0xffff))
      (u16 (n + 1 + tag_len))

-- What is returned for what was sealed.
abbrev pub record_of : Protection → ℕ → Sealed → Protected
record_of p n sealed = record {
  out = header_of p n ++ (sealed.ciphertext ++ sealed.tag);
  state = record p { next_send_sequence = u64 (p.next_send_sequence + 1) };
}

module _ (aead : Aead) where
  abbrev pub encryption : Protection → ℕ → Bytes → Result Sealed
  encryption p content_type plaintext =
      aead.encrypt p.write_key (build_nonce p.write_iv p.next_send_sequence)
        (header_of p (length plaintext)) (plaintext ++ content_type ∷ [])

  pub protect-runs :
      (p : Protection) (content_type : ℕ) (plaintext : Bytes) (out_cap : ℕ)
      → length plaintext < max_inner
      → header_len + (length plaintext + 1 + tag_len) ≤ out_cap
      → protect aead p content_type plaintext out_cap ≡ (
          encryption p content_type plaintext >>= λ sealed.
          ok (record_of p (length plaintext) sealed))
  unfolding protect
  protect-runs p content_type plaintext out_cap short room = ground arith

  protect-Accepts :
      (p : Protection) (content_type : ℕ) (plaintext : Bytes) (out_cap : ℕ) (r : Protected)
      → protect aead p content_type plaintext out_cap ≡ ok r
      → (length plaintext < max_inner) × (header_len + (length plaintext + 1 + tag_len) ≤ out_cap)
  unfolding protect
  protect-Accepts p content_type plaintext out_cap r h = (ground arith, ground arith)

  -- What the reader does with a record whose header and counters are known.
  open_record-runs :
      (u : Unprotection) (buf inner : Bytes) (parsed : Parsed) (seq plaintext_cap : ℕ)
      (sealed : Sealed)
      → reconstruct_epoch u.epoch parsed.hdr.epoch_low2 ≡ u.epoch
      → reconstruct_sequence_number u.highest_seen_sequence parsed.hdr.sequence_number
          (if parsed.hdr.seq_len_is_16bit then 16 else 8)
        ≡ seq
      → tag_len ≤ parsed.payload.len
      → parsed.payload.len ≤ max_inner + tag_len
      → sealed_at buf parsed.payload.offset (parsed.payload.len - tag_len) ≡ sealed
      → aead.decrypt u.read_key (build_nonce u.read_iv seq) (take parsed.payload.offset buf) sealed
        ≡ ok inner
      → length inner ≤ max_inner
      → open_record aead u buf parsed plaintext_cap
        ≡ finish u seq inner (parsed.payload.len - tag_len) plaintext_cap
  unfolding open_record
  open_record-runs u buf inner parsed seq plaintext_cap sealed epoch number long short pointed
        opened fits =
      ground arith

-- The two ends share their keys and their epoch.
abbrev pub Paired : Protection → Unprotection → Type 0
Paired p u =
    (u.read_key ≡ p.write_key) × (u.read_iv ≡ p.write_iv) × (u.epoch ≡ p.epoch) × (p.epoch < 2 ^ 16)

-- The sequence number of the record is less than half a window away from the highest one seen.
abbrev pub InWindow : ℕ → ℕ → Type 0
InWindow highest seq =
    (highest < 2 ^ 48)
    × (seq < 2 ^ 48)
    × (2 * highest < 2 * seq + 2 ^ 16)
    × (2 * seq < 2 * highest + 2 ^ 16)

-- The header that is sent, as the parser reads it in front of `payload`.
received_record :
    (p : Protection) (payload rest : Bytes) (n : ℕ)
    → n < max_inner
    → length payload ≡ n + 1 + tag_len
    → let buf = header_of p n ++ payload ++ rest in
      let parsed = parsed_at buf false true true (p.epoch % 4) 0 in
      (Unified.parse buf 0 ≡ ok parsed)
      × (parsed.hdr.sequence_number ≡ p.next_send_sequence % 2 ^ 16)
      × (parsed.payload.len ≡ n + 1 + tag_len)
received_record p payload rest n short size =
    let e : ℕ = u16 (bit_and p.epoch 0x3) in
    let s : ℕ = u16 (bit_and p.next_send_sequence 0xffff) in
    let low : e % 4 ≡ p.epoch % 4 = omega (arith, bit_and_mask 2 p.epoch) in
    let cut : s ≡ p.next_send_sequence % 2 ^ 16 =
      omega (arith, bit_and_mask 16 p.next_send_sequence) in
    let written : Unified.serialize (fixed_shape e s) payload (header_len + length payload)
        ≡ ok (header_of p n ++ payload) =
      serialize-write_fixed_shape_header e s payload (header_len + length payload) (omega arith)
        (omega arith)
      ∙ ap (λ k. ok (write_fixed_shape_header e s k ++ payload)) (omega arith) in
    let (parsed, received) =
      parse_serialized (fixed_shape e s) payload rest (header_of p n ++ payload)
        (header_len + length payload) 0 (omega arith) (omega arith) (omega arith) (inl refl)
        (omega arith) written in
    let buf : Bytes = header_of p n ++ payload ++ rest in
    (
      parsed ∙ ap (λ k. ok (parsed_at buf false true true k 0)) low,
      received.5 ∙ cut,
      received.6 ∙ size,
    )

module _ (aead : Aead) (laws : Laws aead) where
  -- The reader on a record that was sealed.
  unprotect_sealed :
      (p : Protection) (u : Unprotection) (content_type : ℕ) (plaintext rest : Bytes)
      (plaintext_cap : ℕ) (sealed : Sealed)
      → Paired p u
      → InWindow u.highest_seen_sequence p.next_send_sequence
      → content_type ≢ 0
      → content_type < 256
      → IsBytes plaintext
      → length plaintext ≤ plaintext_cap
      → length plaintext < max_inner
      → encryption aead p content_type plaintext ≡ ok sealed
      → unprotect aead u ((record_of p (length plaintext) sealed).out ++ rest) plaintext_cap
        ≡ ok (record {
          plaintext = plaintext;
          content_type = content_type;
          state = seen u p.next_send_sequence;
        })
  unfolding unprotect write_fixed_shape_header
  unprotect_sealed p u content_type plaintext rest plaintext_cap sealed paired window nonzero byte
        bytes room short encrypted =
      let n : ℕ = length plaintext in
      let key : Bytes = p.write_key in
      let nonce : Bytes = build_nonce p.write_iv p.next_send_sequence in
      let header : Bytes = header_of p n in
      let inner : Bytes = plaintext ++ content_type ∷ [] in
      let payload : Bytes = sealed.ciphertext ++ sealed.tag in
      let buf : Bytes = header ++ payload ++ rest in
      let parsed : Parsed = parsed_at buf false true true (p.epoch % 4) 0 in
      let same_length : length sealed.ciphertext ≡ n + 1 =
        laws.ciphertext_length key nonce header inner sealed encrypted
        ∙ length-append plaintext (content_type ∷ []) in
      let tag : length sealed.tag ≡ tag_len =
        laws.tag_length key nonce header inner sealed encrypted in
      let size : length payload ≡ n + 1 + tag_len =
        length-append sealed.ciphertext sealed.tag ∙ omega arith in
      let (read, seq_read, len_read) = received_record p payload rest n short size in
      let epoch : reconstruct_epoch u.epoch (p.epoch % 4) ≡ u.epoch =
        ap (λ e. reconstruct_epoch u.epoch (e % 4)) (sym paired.2)
        ∙ reconstruct_epoch_recovers u.epoch u.epoch (omega arith) (omega arith) (omega arith)
            (omega arith) in
      let number : reconstruct_sequence_number u.highest_seen_sequence parsed.hdr.sequence_number 16
          ≡ p.next_send_sequence =
        ap (λ v. reconstruct_sequence_number u.highest_seen_sequence v 16) seq_read
        ∙ reconstruct_sequence_recovers u.highest_seen_sequence p.next_send_sequence 16 (inr refl)
            window.0 window.1 window.2 window.3 in
      let pointed : sealed_at buf header_len (parsed.payload.len - tag_len) ≡ sealed =
        ap (sealed_at buf header_len) (omega arith) ∙ sealed_at_payload header rest sealed tag in
      let opened : aead.decrypt u.read_key (build_nonce u.read_iv p.next_send_sequence)
            (take header_len buf) sealed
          ≡ ok inner =
        (λ i.
          aead.decrypt (paired.0 i) (build_nonce (paired.1 i) p.next_send_sequence)
            (header_taken header payload rest i) sealed)
        ∙ laws.inverse key nonce header inner sealed
            (IsBytes-append plaintext (content_type ∷ []) bytes (byte, tt)) encrypted in
      ap (λ (m : Result Parsed). m >>= λ q. open_record aead u buf q plaintext_cap) read
      ∙ open_record-runs aead u buf inner parsed p.next_send_sequence plaintext_cap sealed epoch
          number (omega arith) (omega arith) pointed opened
          (omega (arith, length-append plaintext (content_type ∷ [])))
      ∙ ap (λ k. finish u p.next_send_sequence inner k plaintext_cap) (omega arith)
      ∙ finish_content u p.next_send_sequence content_type plaintext plaintext_cap nonzero room

  -- What one end protects the other unprotects, whatever follows it in the datagram: the plaintext
  -- and the content type, and the higher of the two sequence numbers as the new highest one. The
  -- ends share keys and epoch, the content type and the plaintext are bytes, the first of them not
  -- zero, the output has room for the plaintext, and the sequence number is less than 32768 away from
  -- the highest one seen.
  pub unprotect-protect :
      (p : Protection) (u : Unprotection) (content_type : ℕ) (plaintext rest : Bytes)
      (out_cap plaintext_cap : ℕ) (r : Protected)
      → Paired p u
      → InWindow u.highest_seen_sequence p.next_send_sequence
      → content_type ≢ 0
      → content_type < 256
      → IsBytes plaintext
      → length plaintext ≤ plaintext_cap
      → protect aead p content_type plaintext out_cap ≡ ok r
      → unprotect aead u (r.out ++ rest) plaintext_cap
        ≡ ok (record {
          plaintext = plaintext;
          content_type = content_type;
          state = seen u p.next_send_sequence;
        })
  unprotect-protect p u content_type plaintext rest out_cap plaintext_cap r paired window nonzero
        byte bytes room h =
      let (short, roomy) = protect-Accepts aead p content_type plaintext out_cap r h in
      let (sealed, encrypted, returned) =
        bind-ok (encryption aead p content_type plaintext)
          (λ sealed. ok (record_of p (length plaintext) sealed)) r
          (sym (protect-runs aead p content_type plaintext out_cap short roomy) ∙ h) in
      rw (sym (ok-injective (record_of p (length plaintext) sealed) r returned)) (
        unprotect_sealed p u content_type plaintext rest plaintext_cap sealed paired window nonzero
          byte bytes room short encrypted)
