-- ===== src/Protect/Opening.antt =====
-- The steps of `nd_record_unprotect` behind the header.
use nano_dtls.Base.{
  ℕ, suc, ◌+◌, ◌≤◌, ◌<◌, ◌≡◌, ◌≢◌, refl, sym, ap, ◌∙◌, arith, ◌++◌, [], ◌∷◌, ltb, if◌then◌else◌,
}
use nano_dtls.Base.{
  Bytes, length, get_or, take, drop, byte_at_in, take-append, drop_behind, get_or_behind,
  length-append, ok,
}
use mathlib.Core.List.{append_assoc}
use nano_dtls.Aead.{Sealed, tag_len}
use nano_dtls.Protect.{Unprotection, content_end, finish, sealed_at}

-- A byte that is not zero ends the padding.
content_end_step :
    (inner : Bytes) (i : ℕ)
    → i < length inner
    → get_or inner i 0 ≢ 0
    → content_end inner (suc i) ≡ ok (suc i)
unfolding content_end
content_end_step inner i inside nonzero = ground (arith, byte_at_in inner i, nonzero)

content_end_at :
    (inner : Bytes) (i k : ℕ)
    → k ≡ suc i
    → i < length inner
    → get_or inner i 0 ≢ 0
    → content_end inner k ≡ ok k
content_end_at inner i k e inside nonzero = rw e (content_end_step inner i inside nonzero)

-- The state after a record with the number `full_seq`.
abbrev pub seen : Unprotection → ℕ → Unprotection
seen u full_seq = record u {
  highest_seen_sequence =
      if ltb u.highest_seen_sequence full_seq then full_seq else u.highest_seen_sequence;
}

pub finish_content :
    (u : Unprotection) (full_seq content_type : ℕ) (plaintext : Bytes) (plaintext_cap : ℕ)
    → content_type ≢ 0
    → length plaintext ≤ plaintext_cap
    → finish u full_seq (plaintext ++ content_type ∷ []) (length plaintext + 1) plaintext_cap
      ≡ ok (record { plaintext = plaintext; content_type = content_type; state = seen u full_seq })
unfolding finish
finish_content u full_seq content_type plaintext plaintext_cap nonzero room =
    let inner : Bytes = plaintext ++ content_type ∷ [] in
    let n : ℕ = length plaintext in
    let last : get_or inner n 0 ≡ content_type =
      get_or_behind plaintext (content_type ∷ []) 0 n 0 (omega arith) in
    let size : length inner ≡ n + 1 = length-append plaintext (content_type ∷ []) in
    let whole : take n inner ≡ plaintext = take-append plaintext (content_type ∷ []) in
    let stop : content_end inner (n + 1) ≡ ok (n + 1) =
      content_end_at inner n (n + 1) (omega arith) (omega arith) (ground (arith, last, nonzero)) in
    rw stop (ground (arith, byte_at_in inner n, last, whole, size, room))

-- Where the pointers into the payload point.
pub sealed_at_payload :
    (header rest : Bytes) (sealed : Sealed)
    → length sealed.tag ≡ tag_len
    → sealed_at
        (header ++ (sealed.ciphertext ++ sealed.tag) ++ rest)
        (length header)
        (length sealed.ciphertext)
      ≡ sealed
sealed_at_payload header rest sealed tag = λ i. record { ciphertext = first i; tag = second i }
  where
    c : Bytes
    c = sealed.ciphertext

    t : Bytes
    t = sealed.tag

    behind :
        (i k : ℕ)
        → i ≡ length header + k
        → drop i (header ++ (c ++ t) ++ rest) ≡ drop k (c ++ (t ++ rest))
    behind i k e =
        ap (drop i) (append_assoc header (c ++ t) rest)
        ∙ drop_behind header ((c ++ t) ++ rest) i k e
        ∙ ap (drop k) (append_assoc c t rest)

    first : take (length c) (drop (length header) (header ++ (c ++ t) ++ rest)) ≡ c
    first =
        ap (take (length c)) (behind (length header) 0 (omega arith)) ∙ take-append c (t ++ rest)

    second : take tag_len (drop (length header + length c) (header ++ (c ++ t) ++ rest)) ≡ t
    second =
        ap (take tag_len) (
          behind (length header + length c) (length c) refl
          ∙ drop_behind c (t ++ rest) (length c) 0 (omega arith))
        ∙ ap (λ n. take n (t ++ rest)) (sym tag)
        ∙ take-append t rest

pub header_taken :
    (header payload rest : Bytes) → take (length header) (header ++ payload ++ rest) ≡ header
header_taken header payload rest =
    ap (take (length header)) (append_assoc header payload rest)
    ∙ take-append header (payload ++ rest)
