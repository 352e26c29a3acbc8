-- ===== src/Asn1/Signature.antt =====
-- The encoding of a signature, and reading it back.
use nano_dtls.Base.{
  ℕ, zero, suc, ◌+◌, ◌-◌, ◌≤◌, ◌<◌, ◌≡◌, ◌⊎◌, inl, inr, refl, sym, ap, ◌∙◌, arith, Bool, true,
  false, ◌&&◌, ◌==◌, ◌!=◌, ltb, leb, [], ◌∷◌, ◌++◌, bit_and, if◌then◌else◌,
}
use nano_dtls.Base.{
  Bytes, length, length-append, length-drop, get_or, drop, take-append, replicate, u8, u64, byte_at,
  ok, err, Status, ◌>>◌, fail_if, drop_behind, ltb_of_le, bind-returns, bit_and_high, bad_length,
  Bool-cases,
}
use mathlib.Core.List.{append-nil}
use nano_dtls.Asn1.{
  Tlv, tag_integer, tag_sequence, leading, integer_content, der_encode_uint32,
  write_ecdsa_sig_value, parse_tlv, reader_next, read_uint_fixed, read_signature,
}

and_false : (b : Bool) → (b && false) ≡ false
and_false true = refl
and_false false = refl

==_zero : (b : ℕ) → (b == 0) ≡ true → b ≡ 0
==_zero b h = ground (arith, h)

leading-le : (n : ℕ) (val : Bytes) → leading n val ≤ n
leading-le zero val = omega arith
leading-le (suc n) [] = omega arith
leading-le (suc n) (b ∷ val) = ground (arith, leading-le n val)

-- The bytes that are dropped are zeros.
leading-zeros :
    (n : ℕ) (val : Bytes) → replicate (leading n val) 0 ++ drop (leading n val) val ≡ val
leading-zeros zero val = refl
leading-zeros (suc n) [] = refl
leading-zeros (suc n) (b ∷ val) = elim (Bool-cases (b == 0)) [
  | inl zeroed ↦ rw zeroed (λ i. sym (==_zero b zeroed) i ∷ leading-zeros n val i)
  | inr other ↦ rw other refl
]

-- Behind them is no zero, unless there were `n` of them.
leading-stops :
    (n : ℕ) (val : Bytes)
    → n < length val
    → (leading n val ≡ n) ⊎ ((get_or (drop (leading n val) val) 0 0 == 0) ≡ false)
leading-stops zero val long = inl refl
leading-stops (suc n) [] long = absurd (omega arith)
leading-stops (suc n) (b ∷ val) long = elim (Bool-cases (b == 0)) [
  | inl zeroed ↦ rw zeroed (elim (leading-stops n val (omega arith)) [
    | inl all ↦ inl (ap suc all)
    | inr stop ↦ inr stop
  ])
  | inr other ↦ rw other (inr other)
]

module _ (tlv : Tlv) (t : Bytes) (tag : tlv.tag ≡ tag_integer) (some : 1 ≤ length t)
    (few : length t ≤ 32) where
  fits : ltb 32 (length t) ≡ false
  fits = ground arith

  filled : (length t == 0) ≡ false
  filled = ground arith

  -- A zero before the number is taken off.
  read_behind_zero :
      tlv.value ≡ 0 ∷ t → read_uint_fixed tlv 32 ≡ ok (replicate (32 - length t) 0 ++ t)
  unfolding read_uint_fixed
  read_behind_zero value =
      let two : ltb 1 (length (0 ∷ t)) ≡ true = ground arith in
      let more : (length (0 ∷ t) == 0) ≡ false = ground arith in
      rw (tag, value, two, more, filled, fits) refl

  read_plain :
      tlv.value ≡ t
      → (ltb 1 (length t) && get_or t 0 0 == 0) ≡ false
      → (bit_and (get_or t 0 0) 0x80 != 0) ≡ false
      → read_uint_fixed tlv 32 ≡ ok (replicate (32 - length t) 0 ++ t)
  unfolding read_uint_fixed
  read_plain value plain positive = rw (tag, value, plain, positive, filled, fits) refl

module _ (val : Bytes) (sized : length val ≡ 32) where
  length-trimmed : length (drop (leading 31 val) val) ≡ 32 - leading 31 val
  length-trimmed = omega (arith, length-drop (leading 31 val) val)

  padded : replicate (32 - length (drop (leading 31 val) val)) 0 ++ drop (leading 31 val) val ≡ val
  padded =
      let count : 32 - length (drop (leading 31 val) val) ≡ leading 31 val =
        omega (arith, length-trimmed, leading-le 31 val) in
      rw count (leading-zeros 31 val)

  not_zero :
      (ltb 1 (length (drop (leading 31 val) val)) && get_or (drop (leading 31 val) val) 0 0 == 0)
      ≡ false
  not_zero = elim (leading-stops 31 val (omega arith)) [
    | inl all ↦ rw (length-trimmed, all) refl
    | inr stop ↦ rw stop (and_false (ltb 1 (length (drop (leading 31 val) val))))
  ]

  -- The number is read back with its 32 bytes.
  read_uint_fixed-content :
      (tlv : Tlv)
      → tlv.tag ≡ tag_integer
      → tlv.value ≡ integer_content val
      → read_uint_fixed tlv 32 ≡ ok val
  read_uint_fixed-content tlv tag value =
      let t = drop (leading 31 val) val in
      let some : 1 ≤ length t = omega (arith, length-trimmed, leading-le 31 val) in
      let few : length t ≤ 32 = omega (arith, length-trimmed) in
      elim (Bool-cases (bit_and (get_or t 0 0) 0x80 != 0)) [
        | inl high ↦ read_behind_zero tlv t tag some few (value ∙ rw high refl) ∙ ap ok padded
        | inr low ↦ read_plain tlv t tag some few (value ∙ rw low refl) not_zero low ∙ ap ok padded
      ]

  length-content : (1 ≤ length (integer_content val)) × (length (integer_content val) ≤ 33)
  length-content =
      let t = drop (leading 31 val) val in
      elim (Bool-cases (bit_and (get_or t 0 0) 0x80 != 0)) [
        | inl high ↦ rw high (omega arith, omega (arith, length-trimmed))
        | inr low ↦
            rw low (omega (arith, length-trimmed, leading-le 31 val), omega (arith, length-trimmed))
      ]

-- An element in the short form.
parse_short :
    (tag : ℕ) (value rest : Bytes)
    → (bit_and tag 0x1f == 0x1f) ≡ false
    → length value < 128
    → parse_tlv (tag ∷ u8 (length value) ∷ (value ++ rest))
      ≡ ok
          (record { tag = tag; constructed = bit_and tag 0x20 != 0; header_len = 2; value = value })
unfolding parse_tlv byte_at
parse_short tag value rest plain short =
    let n = length value in
    let long : ltb (length (tag ∷ n ∷ (value ++ rest))) 2 ≡ false = ground arith in
    let same : u8 (length value) ≡ n = omega arith in
    let low : bit_and n 0x80 ≡ 0 = omega (arith, bit_and_high 7 1 n) in
    let forward : ltb (u64 (2 + n)) 2 ≡ false = ground arith in
    let inside : ltb (length (tag ∷ n ∷ (value ++ rest))) (u64 (2 + n)) ≡ false =
      ground (arith, length-append value rest) in
    rw (same, long, plain, low, forward, inside, take-append value rest) refl

-- `ECDSA-Sig-Value`: a sequence of two numbers.
abbrev pub signature : Bytes → Bytes → Bytes
signature r s =
    let body = der_encode_uint32 r ++ der_encode_uint32 s in tag_sequence ∷ u8 (length body) ∷ body

-- The next element behind `pre`, in the short form.
next_short :
    (tag : ℕ) (value pre rest : Bytes)
    → (bit_and tag 0x1f == 0x1f) ≡ false
    → length value < 128
    → reader_next
        (record { buf = pre ++ (tag ∷ u8 (length value) ∷ (value ++ rest)); pos = length pre })
      ≡ ok (
        record { tag = tag; constructed = bit_and tag 0x20 != 0; header_len = 2; value = value },
        record {
          buf = pre ++ (tag ∷ u8 (length value) ∷ (value ++ rest));
          pos = length pre + (2 + length value);
        },
      )
unfolding reader_next
next_short tag value pre rest plain short =
    let xs = tag ∷ u8 (length value) ∷ (value ++ rest) in
    let more : leb (length (pre ++ xs)) (length pre) ≡ false =
      ground (arith, length-append pre xs) in
    rw (more, drop_behind pre xs (length pre) 0 (omega arith))
      (bind-returns _ (parse_short tag value rest plain short) refl)

guard_branch :
    (b : Bool) (e : Status) (xs : Bytes) → (fail_if b e >> ok xs) ≡ (if b then err e else ok xs)
guard_branch true e xs = refl
guard_branch false e xs = refl

length-body :
    (r s : Bytes)
    → length r ≡ 32
    → length s ≡ 32
    → length (der_encode_uint32 r ++ der_encode_uint32 s) < 128
length-body r s hr hs = omega (
  arith,
  length-append (der_encode_uint32 r) (der_encode_uint32 s),
  length-content r hr,
  length-content s hs,
)

-- The element fits the 80 bytes that the server has for it.
pub length-signature : (r s : Bytes) → length r ≡ 32 → length s ≡ 32 → length (signature r s) ≤ 80
length-signature r s hr hs = omega (
  arith,
  length-append (der_encode_uint32 r) (der_encode_uint32 s),
  length-content r hr,
  length-content s hs,
)

pub write_ecdsa_sig_value_branches :
    (r s : Bytes) (out_cap : ℕ)
    → length r ≡ 32
    → length s ≡ 32
    → write_ecdsa_sig_value r s out_cap
      ≡ (if ltb out_cap (length (signature r s)) then err bad_length else ok (signature r s))
unfolding write_ecdsa_sig_value
write_ecdsa_sig_value_branches r s out_cap hr hs =
    let body = der_encode_uint32 r ++ der_encode_uint32 s in
    let small : ltb 127 (length body) ≡ false =
      ltb_of_le 127 (length body) (omega (arith, length-body r s hr hs)) in
    let same : 2 + length body ≡ suc (suc (length body)) = omega arith in
    rw small (
      (λ i. fail_if (ltb out_cap (same i)) bad_length >> ok (signature r s))
      ∙ guard_branch (ltb out_cap (length (signature r s))) bad_length (signature r s))

-- The chain of reads in `nd_certificate_verify_check`.
pub read_signature-written :
    (r s : Bytes) → length r ≡ 32 → length s ≡ 32 → read_signature (signature r s) ≡ ok (r, s)
unfolding read_signature
read_signature-written r s hr hs =
    let er = der_encode_uint32 r in
    let es = der_encode_uint32 s in
    let body = er ++ es in
    let short_r : length (integer_content r) < 128 = omega (arith, length-content r hr) in
    let short_s : length (integer_content s) < 128 = omega (arith, length-content s hs) in
    let ends : er ++ es ≡ er ++ (es ++ []) = λ i. er ++ sym (append-nil es) i in
    let here : 0 + (2 + length (integer_content r)) ≡ length er = omega arith in
    bind-returns _
      ((λ i. parse_tlv (tag_sequence ∷ u8 (length body) ∷ sym (append-nil body) i))
        ∙ parse_short tag_sequence body [] refl (length-body r s hr hs))
      (bind-returns _ (next_short tag_integer (integer_content r) [] es refl short_r) (
        bind-returns _
          ((λ i. reader_next (record { buf = ends i; pos = here i }))
            ∙ next_short tag_integer (integer_content s) er [] refl short_s)
          (bind-returns _ (read_uint_fixed-content r hr _ refl refl)
            (bind-returns _ (read_uint_fixed-content s hs _ refl refl) refl))))
