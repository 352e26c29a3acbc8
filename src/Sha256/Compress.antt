-- ===== src/Sha256/Compress.antt =====
-- `sha256_compress` of src/crypto/sha256.c on one block of 64 bytes.
use nano_dtls.Base.{ℕ, zero, suc, ◌+◌, ◌-◌, ◌*◌, ◌^◌, List, [], ◌∷◌, ◌++◌, bit_and, bit_or, bit_xor}
use nano_dtls.Base.{Bytes, get_or, u32, ◌<<<◌, ◌>>>◌}

-- `K`
abbrev pub round_constants : List ℕ
round_constants =
    0x428a2f98 ∷ 0x71374491 ∷ 0xb5c0fbcf ∷ 0xe9b5dba5 ∷ 0x3956c25b ∷ 0x59f111f1 ∷ 0x923f82a4
    ∷ 0xab1c5ed5 ∷ 0xd807aa98 ∷ 0x12835b01 ∷ 0x243185be ∷ 0x550c7dc3 ∷ 0x72be5d74 ∷ 0x80deb1fe
    ∷ 0x9bdc06a7 ∷ 0xc19bf174 ∷ 0xe49b69c1 ∷ 0xefbe4786 ∷ 0x0fc19dc6 ∷ 0x240ca1cc ∷ 0x2de92c6f
    ∷ 0x4a7484aa ∷ 0x5cb0a9dc ∷ 0x76f988da ∷ 0x983e5152 ∷ 0xa831c66d ∷ 0xb00327c8 ∷ 0xbf597fc7
    ∷ 0xc6e00bf3 ∷ 0xd5a79147 ∷ 0x06ca6351 ∷ 0x14292967 ∷ 0x27b70a85 ∷ 0x2e1b2138 ∷ 0x4d2c6dfc
    ∷ 0x53380d13 ∷ 0x650a7354 ∷ 0x766a0abb ∷ 0x81c2c92e ∷ 0x92722c85 ∷ 0xa2bfe8a1 ∷ 0xa81a664b
    ∷ 0xc24b8b70 ∷ 0xc76c51a3 ∷ 0xd192e819 ∷ 0xd6990624 ∷ 0xf40e3585 ∷ 0x106aa070 ∷ 0x19a4c116
    ∷ 0x1e376c08 ∷ 0x2748774c ∷ 0x34b0bcb5 ∷ 0x391c0cb3 ∷ 0x4ed8aa4a ∷ 0x5b9cca4f ∷ 0x682e6ff3
    ∷ 0x748f82ee ∷ 0x78a5636f ∷ 0x84c87814 ∷ 0x8cc70208 ∷ 0x90befffa ∷ 0xa4506ceb ∷ 0xbef9a3f7
    ∷ 0xc67178f2 ∷ []

abbrev pub rotr32 : ℕ → ℕ → ℕ
rotr32 x n = bit_or (x >>> n) (u32 (x <<< (32 - n)))

-- The eight words of the hash, and the working variables `a` to `hh`.
pub record Words : Type 0 where
  pub a : ℕ
  pub b : ℕ
  pub c : ℕ
  pub d : ℕ
  pub e : ℕ
  pub f : ℕ
  pub g : ℕ
  pub h : ℕ

-- The first loop from word `i` on, with `left` words to go.
abbrev pub load_words : ℕ → ℕ → Bytes → List ℕ
load_words zero i block = []
load_words (suc left) i block =
    bit_or
      (bit_or (bit_or (get_or block (i * 4) 0 <<< 24) (get_or block (i * 4 + 1) 0 <<< 16))
        (get_or block (i * 4 + 2) 0 <<< 8))
      (get_or block (i * 4 + 3) 0)
    ∷ load_words left (i + 1) block

-- The second loop: `w` holds the words below `i`.
abbrev pub extend : ℕ → ℕ → List ℕ → List ℕ
extend zero i w = w
extend (suc left) i w =
    let x = get_or w (i - 15) 0 in
    let y = get_or w (i - 2) 0 in
    let s0 = bit_xor (bit_xor (rotr32 x 7) (rotr32 x 18)) (x >>> 3) in
    let s1 = bit_xor (bit_xor (rotr32 y 17) (rotr32 y 19)) (y >>> 10) in
    extend left (i + 1) (w ++ u32 (get_or w (i - 16) 0 + s0 + get_or w (i - 7) 0 + s1) ∷ [])

abbrev pub temp1 : Words → ℕ → ℕ → ℕ
temp1 s k w =
    let big1 = bit_xor (bit_xor (rotr32 s.e 6) (rotr32 s.e 11)) (rotr32 s.e 25) in
    let ch = bit_xor (bit_and s.e s.f) (bit_and (2 ^ 32 - 1 - s.e) s.g) in
    u32 (s.h + big1 + ch + k + w)

abbrev pub temp2 : Words → ℕ
temp2 s =
    let big0 = bit_xor (bit_xor (rotr32 s.a 2) (rotr32 s.a 13)) (rotr32 s.a 22) in
    let maj = bit_xor (bit_xor (bit_and s.a s.b) (bit_and s.a s.c)) (bit_and s.b s.c) in
    u32 (big0 + maj)

-- The body of the third loop.
abbrev pub round : Words → ℕ → ℕ → Words
round s k w =
    let t = temp1 s k w in
    record {
      a = u32 (t + temp2 s);
      b = s.a;
      c = s.b;
      d = s.c;
      e = u32 (s.d + t);
      f = s.e;
      g = s.f;
      h = s.g;
    }

abbrev pub all_rounds : List ℕ → List ℕ → Words → Words
all_rounds [] ws s = s
all_rounds (k ∷ ks) [] s = s
all_rounds (k ∷ ks) (w ∷ ws) s = all_rounds ks ws (round s k w)

unfoldable pub compress : Words → Bytes → Words
compress h block =
    let s = all_rounds round_constants (extend 48 16 (load_words 16 0 block)) h in
    record {
      a = u32 (h.a + s.a);
      b = u32 (h.b + s.b);
      c = u32 (h.c + s.c);
      d = u32 (h.d + s.d);
      e = u32 (h.e + s.e);
      f = u32 (h.f + s.f);
      g = u32 (h.g + s.g);
      h = u32 (h.h + s.h);
    }
