-- ===== src/Hkdf/Stream.antt =====
-- `nd_hkdf_expand` against the output of RFC 5869, section 2.3.
use nano_dtls.Base.{
  ℕ, zero, suc, ◌+◌, ◌-◌, ◌*◌, ◌≤◌, ◌<◌, ◌≡◌, refl, sym, ap, ◌∙◌, arith, [], ◌∷◌, ◌++◌, min, ltb,
  if◌then◌else◌, ◌⊎◌,
}
use nano_dtls.Base.{
  Bytes, length, take, u8, length-append, length-take, Result, ok, err, bad_arg, lt→ltb, ltb_of_le,
  take_short,
}
use native.Mathlib.Decide.{dec_lt}
use mathlib.Core.Path.{ap₂}
use nano_dtls.Hmac.{hmac_sha256}
use nano_dtls.Hmac.Nested.{length-hmac_sha256}
use nano_dtls.Hkdf.{hash_len, info_max, expand_loop, expand}

-- `T(k)`
abbrev pub block_of : Bytes → Bytes → ℕ → Bytes
block_of prk info zero = []
block_of prk info (suc k) = hmac_sha256 prk (block_of prk info k ++ (info ++ suc k ∷ []))

-- `T(k + 1) | … | T(k + n)`
abbrev pub blocks_from : Bytes → Bytes → ℕ → ℕ → Bytes
blocks_from prk info zero k = []
blocks_from prk info (suc n) k = block_of prk info (suc k) ++ blocks_from prk info n (suc k)

take-append_cut :
    (n : ℕ) (xs ys : Bytes)
    → take n (xs ++ ys) ≡ take (min n (length xs)) xs ++ take (n - length xs) ys
take-append_cut n [] ys =
    let none : min n 0 ≡ 0 = omega arith in let all : n - 0 ≡ n = omega arith in rw (none, all) refl
take-append_cut zero (x ∷ xs) ys =
    let front : min 0 (suc (length xs)) ≡ 0 = omega arith in
    let back : 0 - suc (length xs) ≡ 0 = omega arith in rw (front, back) refl
take-append_cut (suc n) (x ∷ xs) ys =
    let front : min (suc n) (suc (length xs)) ≡ suc (min n (length xs)) = omega arith in
    let back : suc n - suc (length xs) ≡ n - length xs = omega arith in
    rw (front, back) (ap (λ t. x ∷ t) (take-append_cut n xs ys))

-- The value of a round, as the code has it.
abbrev round_at : ℕ → Bytes → Bytes → ℕ → Bytes → ℕ → ℕ → Bytes
round_at fuel prk info out_len t generated counter =
    let t' = hmac_sha256 prk (t ++ (info ++ counter ∷ [])) in
    let n = min (out_len - generated) hash_len in
    let rest = expand_loop fuel prk info out_len t' (generated + n) (u8 (counter + 1)) in
    if ltb generated out_len then take n t' ++ rest else []

round_stops :
    (fuel k : ℕ) (prk info t : Bytes) (out_len generated counter : ℕ)
    → out_len ≤ hash_len * k
    → generated ≡ min out_len (hash_len * k)
    → round_at fuel prk info out_len t generated counter
      ≡ take (out_len - hash_len * k) (blocks_from prk info (suc fuel) k)
round_stops fuel k prk info t out_len generated counter done g =
    let nothing : out_len - hash_len * k ≡ 0 = omega arith in
    rw (nothing, ltb_of_le generated out_len (omega arith)) refl

round_goes_on :
    (fuel k : ℕ) (prk info : Bytes) (out_len generated counter : ℕ)
    → hash_len * k < out_len
    → generated ≡ min out_len (hash_len * k)
    → counter ≡ suc k
    → expand_loop fuel prk info out_len
        (block_of prk info (suc k))
        (generated + min (out_len - generated) hash_len)
        (u8 (suc k + 1))
      ≡ take (out_len - hash_len * suc k) (blocks_from prk info fuel (suc k))
    → round_at fuel prk info out_len (block_of prk info k) generated counter
      ≡ take (out_len - hash_len * k) (blocks_from prk info (suc fuel) k)
round_goes_on fuel k prk info out_len generated counter more g c rest =
    let t : Bytes = block_of prk info (suc k) in
    let size : length t ≡ hash_len =
      length-hmac_sha256 prk (block_of prk info k ++ (info ++ suc k ∷ [])) in
    let front : min (out_len - generated) hash_len ≡ min (out_len - hash_len * k) (length t) =
      omega arith in
    let back : out_len - hash_len * suc k ≡ out_len - hash_len * k - length t = omega arith in
    ap (round_at fuel prk info out_len (block_of prk info k) generated) c
    ∙ rw (lt→ltb generated out_len (omega arith)) (
        ap₂ ◌++◌ (ap (λ n. take n t) front)
          (rest ∙ ap (λ n. take n (blocks_from prk info fuel (suc k))) back))
    ∙ sym (take-append_cut (out_len - hash_len * k) t (blocks_from prk info fuel (suc k)))

expand_loop-blocks :
    (fuel k : ℕ) (prk info : Bytes) (out_len generated counter : ℕ)
    → k + fuel ≤ 255
    → out_len ≤ hash_len * (k + fuel)
    → generated ≡ min out_len (hash_len * k)
    → counter ≡ u8 (k + 1)
    → expand_loop fuel prk info out_len (block_of prk info k) generated counter
      ≡ take (out_len - hash_len * k) (blocks_from prk info fuel k)
unfolding expand_loop
expand_loop-blocks zero k prk info out_len generated counter rounds enough g c =
    sym ((take_short (out_len - hash_len * k) [] (omega arith)).0)
expand_loop-blocks (suc fuel) k prk info out_len generated counter rounds enough g c =
    let next =
      expand_loop-blocks fuel (suc k) prk info out_len
        (generated + min (out_len - generated) hash_len) (u8 (suc k + 1)) (omega arith)
        (omega arith) in
    elim (dec_lt (hash_len * k) out_len) [
      | yes more ↦
          round_goes_on fuel k prk info out_len generated counter more g (omega arith)
            (next (omega arith) refl)
      | no done ↦
          round_stops fuel k prk info (block_of prk info k) out_len generated counter (omega arith)
            g
    ]

length-blocks_from : (n k : ℕ) (prk info : Bytes) → length (blocks_from prk info n k) ≡ hash_len * n
length-blocks_from zero k prk info = omega arith
length-blocks_from (suc n) k prk info = omega (
  arith,
  length-append (block_of prk info (suc k)) (blocks_from prk info n (suc k)),
  length-hmac_sha256 prk (block_of prk info k ++ (info ++ suc k ∷ [])),
  length-blocks_from n (suc k) prk info,
)

-- The output of RFC 5869: the first bytes of `T(1) | T(2) | … | T(255)`.
abbrev pub output : Bytes → Bytes → ℕ → Bytes
output prk info out_len = take out_len (blocks_from prk info 255 0)

pub length-output :
    (prk info : Bytes) (out_len : ℕ)
    → out_len ≤ 255 * hash_len
    → length (output prk info out_len) ≡ out_len
length-output prk info out_len small =
    omega
      (arith, length-take out_len (blocks_from prk info 255 0), length-blocks_from 255 0 prk info)

pub expand-ok :
    (prk info : Bytes) (out_len : ℕ)
    → out_len ≤ 255 * hash_len
    → length info ≤ info_max
    → expand prk info out_len ≡ ok (output prk info out_len)
unfolding expand
expand-ok prk info out_len small fits =
    let run : expand_loop 255 prk info out_len [] 0 1 ≡ output prk info out_len =
      expand_loop-blocks 255 0 prk info out_len 0 1 (omega arith) (omega arith) (omega arith) refl
      ∙ ap (λ n. take n (blocks_from prk info 255 0)) (omega arith) in
    ground (arith, run)

-- What each result of the expansion says.
abbrev pub Expands : Bytes → Bytes → ℕ → Result Bytes → Type 0
Expands prk info out_len (ok out) =
    (out_len ≤ 255 * hash_len)
    × (length info ≤ info_max)
    × (out ≡ output prk info out_len)
    × (length out ≡ out_len)
Expands prk info out_len (err bad_arg) = (255 * hash_len < out_len) ⊎ (info_max < length info)
Expands prk info out_len _ = ⊥

-- Within the limits on the output, 255 blocks, and on the info, 200 bytes, the expansion returns
-- as many bytes as were asked for, and they are the first ones of the stream of RFC 5869.
-- Outside the limits it is `ND_ERR_BAD_ARG`.
pub expand_branches :
    (prk info : Bytes) (out_len : ℕ) → Expands prk info out_len (expand prk info out_len)
unfolding expand
expand_branches prk info out_len =
    ground (arith, expand-ok prk info out_len, length-output prk info out_len)
