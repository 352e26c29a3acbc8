-- ===== src/Protect/Nonce.antt =====
-- `build_nonce`: one nonce for every sequence number.
use nano_dtls.Base.{ℕ, suc, ◌^◌, ◌<◌, ◌≡◌, ◌≢◌, refl, ap, ◌∙◌, arith, bit_xor_cancel}
use nano_dtls.Base.{Bytes, [], ◌∷◌, length, get_or, drop, replicate}
use mathlib.Core.Path.{ap₂}
use nano_dtls.Aead.{nonce_len}
use nano_dtls.Protect.{put_sequence, xor_bytes, build_nonce}

-- XOR with the same bytes is undone.
xor_bytes-cancel :
    (iv xs ys : Bytes)
    → length xs ≡ length iv
    → length ys ≡ length iv
    → xor_bytes iv xs ≡ xor_bytes iv ys
    → xs ≡ ys
xor_bytes-cancel [] [] [] hx hy h = refl
xor_bytes-cancel [] (x ∷ xs) ys hx hy h = absurd (omega arith)
xor_bytes-cancel [] [] (y ∷ ys) hx hy h = absurd (omega arith)
xor_bytes-cancel (a ∷ iv) [] ys hx hy h = absurd (omega arith)
xor_bytes-cancel (a ∷ iv) (x ∷ xs) [] hx hy h = absurd (omega arith)
xor_bytes-cancel (a ∷ iv) (x ∷ xs) (y ∷ ys) hx hy h =
    ap₂ ◌∷◌ (bit_xor_cancel a x y (ap (λ l. get_or l 0 0) h))
      (xor_bytes-cancel iv xs ys (omega arith) (omega arith) (ap (λ l. drop 1 l) h))

length-xor_bytes : (iv xs : Bytes) → length xs ≡ length iv → length (xor_bytes iv xs) ≡ length iv
length-xor_bytes [] xs h = refl
length-xor_bytes (a ∷ iv) [] h = absurd (omega arith)
length-xor_bytes (a ∷ iv) (x ∷ xs) h = ap suc (length-xor_bytes iv xs (omega arith))

pub length-build_nonce :
    (iv : Bytes) (seq : ℕ) → length iv ≡ nonce_len → length (build_nonce iv seq) ≡ nonce_len
unfolding build_nonce
length-build_nonce iv seq size =
    length-xor_bytes iv (put_sequence 8 0 seq (replicate nonce_len 0)) (omega arith) ∙ size

-- The sequence number in the nonce, high byte first behind four zeros.
abbrev padded : ℕ → Bytes
padded seq = put_sequence 8 0 seq (replicate nonce_len 0)

padded-inj : (s t : ℕ) → s < 2 ^ 64 → t < 2 ^ 64 → padded s ≡ padded t → s ≡ t
padded-inj s t hs ht h = omega (
  arith,
  ap (λ l. get_or l 4 0) h,
  ap (λ l. get_or l 5 0) h,
  ap (λ l. get_or l 6 0) h,
  ap (λ l. get_or l 7 0) h,
  ap (λ l. get_or l 8 0) h,
  ap (λ l. get_or l 9 0) h,
  ap (λ l. get_or l 10 0) h,
  ap (λ l. get_or l 11 0) h,
)

-- Two sequence numbers of 64 bits that are not the same give two nonces that are not the same, so
-- no nonce is used twice under one IV as long as no sequence number repeats.
pub build_nonce_distinct :
    (iv : Bytes) (s t : ℕ)
    → length iv ≡ nonce_len
    → s < 2 ^ 64
    → t < 2 ^ 64
    → s ≢ t
    → build_nonce iv s ≢ build_nonce iv t
unfolding build_nonce
build_nonce_distinct iv s t size hs ht other h =
    other (
      padded-inj s t hs ht
        (xor_bytes-cancel iv (padded s) (padded t) (omega arith) (omega arith) h))
