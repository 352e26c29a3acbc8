-- ===== src/Hmac/Rfc2104.antt =====
-- HMAC as RFC 2104 defines it.
use nano_dtls.Base.{
  ℕ, zero, suc, ◌+◌, ◌-◌, ◌≤◌, ◌<◌, ◌≡◌, refl, sym, ap, ◌∙◌, arith, inl, inr, [], ◌∷◌, ◌++◌, Bool,
  true, false, Bool-cases, leb, ltb, if◌then◌else◌, not, bit_xor, bit_xor-lt, u8,
}
use mathlib.Core.Path.{ap₂}
use nano_dtls.Base.{Bytes, IsBytes, IsBytes-append, length, get_or, gets, replicate}
use nano_dtls.Sha256.{sha256}
use nano_dtls.Hmac.{key_block, xor_byte, hmac_sha256}
use nano_dtls.Hmac.Nested.{hmac_sha256-pieces, length-final, final-IsBytes}

-- The bytes of the key, or of its hash where it has more than 64, and zeros behind them up to 64.
abbrev block_key : Bytes → Bytes
block_key key = gets 64 0 (if leb (length key) 64 then key else sha256 key)

-- Every byte XORed with the one that is repeated.
abbrev masked : Bytes → ℕ → Bytes
masked [] pad = []
masked (x ∷ xs) pad = bit_xor x pad ∷ masked xs pad

-- H(K XOR opad, H(K XOR ipad, text)), with B = 64.
abbrev pub rfc2104 : Bytes → Bytes → Bytes
rfc2104 key text =
    sha256 (masked (block_key key) 0x5c ++ sha256 (masked (block_key key) 0x36 ++ text))

gets-short :
    (pads n i : ℕ) (xs ys : Bytes)
    → n ≡ length ys + pads
    → ((k : ℕ) → get_or xs (i + k) 0 ≡ get_or ys k 0)
    → gets n i xs ≡ ys ++ replicate pads 0
gets-short zero zero i xs [] h e = refl
gets-short zero (suc n) i xs [] h e = absurd (omega arith)
gets-short (suc pads) zero i xs [] h e = absurd (omega arith)
gets-short (suc pads) (suc n) i xs [] h e = ap₂ ◌∷◌ (ap (λ k. get_or xs k 0) (omega arith) ∙ e 0) (
    gets-short pads n (suc i) xs [] (omega arith)
      (λ k. ap (λ j. get_or xs j 0) (omega arith) ∙ e (suc k)))
gets-short pads zero i xs (y ∷ ys) h e = absurd (omega arith)
gets-short pads (suc n) i xs (y ∷ ys) h e = ap₂ ◌∷◌ (ap (λ k. get_or xs k 0) (omega arith) ∙ e 0) (
    gets-short pads n (suc i) xs ys (omega arith)
      (λ k. ap (λ j. get_or xs j 0) (omega arith) ∙ e (suc k)))

xor_byte-masked : (c : ℕ) (xs : Bytes) → c < 256 → IsBytes xs → xor_byte c xs ≡ masked xs c
xor_byte-masked c [] small h = refl
xor_byte-masked c (x ∷ xs) small h =
    ap₂ ◌∷◌ (cut (bit_xor x c) (bit_xor-lt 8 x c h.0 small)) (xor_byte-masked c xs small h.1)
  where
    cut : (n : ℕ) → n < 256 → u8 n ≡ n
    cut n k = omega arith

IsBytes-zeros : (n : ℕ) → IsBytes (replicate n 0)
IsBytes-zeros zero = tt
IsBytes-zeros (suc n) = (omega arith, IsBytes-zeros n)

length-sha256 : (m : Bytes) → length (sha256 m) ≡ 32
unfolding sha256
length-sha256 m = length-final _

sha256-IsBytes : (m : Bytes) → IsBytes (sha256 m)
unfolding sha256
sha256-IsBytes m = final-IsBytes _

key_block-IsBytes : (key : Bytes) → IsBytes key → IsBytes (key_block key)
key_block-IsBytes key h = elim (Bool-cases (ltb 64 (length key))) [
  | inl long ↦ rw long (IsBytes-append (sha256 key) _ (sha256-IsBytes key) (IsBytes-zeros _))
  | inr short ↦ rw short (IsBytes-append key _ h (IsBytes-zeros _))
]

key_block_lem : (key : Bytes) → key_block key ≡ block_key key
key_block_lem key =
    of_test (ltb 64 (length key)) (leb (length key) 64) (ground arith) (λ h. ground (arith, h))
  where
    padded : (k : Bytes) → length k ≤ 64 → k ++ replicate (64 - length k) 0 ≡ gets 64 0 k
    padded k h = sym (
        gets-short (64 - length k) 64 0 k k (omega arith)
          (λ j. ap (λ n. get_or k n 0) (omega arith)))

    of_test :
        (long short : Bool)
        → short ≡ not long
        → (long ≡ false → length key ≤ 64)
        → let k = if long then sha256 key else key in
          k ++ replicate (64 - length k) 0 ≡ gets 64 0 (if short then key else sha256 key)
    of_test true true e h = absurd (ground (arith, e))
    of_test true false e h = padded (sha256 key) (omega (arith, length-sha256 key))
    of_test false true e h = padded key (h refl)
    of_test false false e h = absurd (ground (arith, e))

-- For a key and data of any length, the code, which hashes in pieces and pads the key in place, is
-- the HMAC that RFC 2104 defines over SHA-256 with blocks of 64 bytes. The key is of bytes.
pub hmac_sha256-rfc2104 : (key text : Bytes) → IsBytes key → hmac_sha256 key text ≡ rfc2104 key text
hmac_sha256-rfc2104 key text h =
    let bytes = key_block-IsBytes key h in
    let pads : (c : ℕ) → c < 256 → xor_byte c (key_block key) ≡ masked (block_key key) c =
      λ c small.
        xor_byte-masked c (key_block key) small bytes ∙ ap (λ b. masked b c) (key_block_lem key) in
    hmac_sha256-pieces key text
    ∙ (λ i. sha256 (pads 0x5c (omega arith) i ++ sha256 (pads 0x36 (omega arith) i ++ text)))
