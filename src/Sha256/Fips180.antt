-- ===== src/Sha256/Fips180.antt =====
-- SHA-256 as FIPS 180-4 defines it: the constants from the roots of the first primes, the functions
-- of section 4.1.2, the padding of section 5.1.1 and the computation of section 6.2.
use nano_dtls.Base.{
  ℕ, zero, suc, ◌+◌, ◌-◌, ◌*◌, ◌/◌, ◌%◌, ◌^◌, List, [], ◌∷◌, ◌++◌, leb, if◌then◌else◌, bit_and,
  bit_or, bit_xor, Bytes, length, get_or, take, drop, replicate,
}

-- The first 64 primes.
abbrev primes : List ℕ
primes =
    2 ∷ 3 ∷ 5 ∷ 7 ∷ 11 ∷ 13 ∷ 17 ∷ 19 ∷ 23 ∷ 29 ∷ 31 ∷ 37 ∷ 41 ∷ 43 ∷ 47 ∷ 53 ∷ 59 ∷ 61 ∷ 67 ∷ 71
    ∷ 73 ∷ 79 ∷ 83 ∷ 89 ∷ 97 ∷ 101 ∷ 103 ∷ 107 ∷ 109 ∷ 113 ∷ 127 ∷ 131 ∷ 137 ∷ 139 ∷ 149 ∷ 151 ∷ 157
    ∷ 163 ∷ 167 ∷ 173 ∷ 179 ∷ 181 ∷ 191 ∷ 193 ∷ 197 ∷ 199 ∷ 211 ∷ 223 ∷ 227 ∷ 229 ∷ 233 ∷ 239 ∷ 241
    ∷ 251 ∷ 257 ∷ 263 ∷ 269 ∷ 271 ∷ 277 ∷ 281 ∷ 283 ∷ 293 ∷ 307 ∷ 311 ∷ []

-- The whole part of the root of degree `k` of `n`, by its bits below `2 ^ bits`, found so far `r`.
abbrev root : ℕ → ℕ → ℕ → ℕ → ℕ
root k n zero r = r
root k n (suc bits) r = root k n bits (if leb ((r + 2 ^ bits) ^ k) n then r + 2 ^ bits else r)

-- The first 32 bits of the fractional part of the root of degree `k` of `p`.
abbrev fraction : ℕ → ℕ → ℕ
fraction k p = root k (p * 2 ^ (32 * k)) 40 0 % 2 ^ 32

abbrev fractions : ℕ → List ℕ → List ℕ
fractions k [] = []
fractions k (p ∷ ps) = fraction k p ∷ fractions k ps

-- Sections 4.2.2 and 5.3.3.
unfoldable pub constants : List ℕ
constants = fractions 3 primes

unfoldable pub first_hash : List ℕ
first_hash = fractions 2 (take 8 primes)

-- Section 3.2
abbrev rotr : ℕ → ℕ → ℕ
rotr n x = bit_or (x / 2 ^ n) (x * 2 ^ (32 - n) % 2 ^ 32)

abbrev shr : ℕ → ℕ → ℕ
shr n x = x / 2 ^ n

-- Section 4.1.2
abbrev ch : ℕ → ℕ → ℕ → ℕ
ch x y z = bit_xor (bit_and x y) (bit_and (2 ^ 32 - 1 - x) z)

abbrev maj : ℕ → ℕ → ℕ → ℕ
maj x y z = bit_xor (bit_xor (bit_and x y) (bit_and x z)) (bit_and y z)

abbrev big_sigma0 : ℕ → ℕ
big_sigma0 x = bit_xor (bit_xor (rotr 2 x) (rotr 13 x)) (rotr 22 x)

abbrev big_sigma1 : ℕ → ℕ
big_sigma1 x = bit_xor (bit_xor (rotr 6 x) (rotr 11 x)) (rotr 25 x)

abbrev pub sigma0 : ℕ → ℕ
sigma0 x = bit_xor (bit_xor (rotr 7 x) (rotr 18 x)) (shr 3 x)

abbrev pub sigma1 : ℕ → ℕ
sigma1 x = bit_xor (bit_xor (rotr 17 x) (rotr 19 x)) (shr 10 x)

-- Section 5.2.1: words of 32 bits, the first byte the highest.
abbrev pub words : ℕ → Bytes → List ℕ
words zero m = []
words (suc n) m =
    (get_or m 0 0 * 2 ^ 24 + get_or m 1 0 * 2 ^ 16 + get_or m 2 0 * 2 ^ 8 + get_or m 3 0)
    ∷ words n (drop 4 m)

-- Section 6.2.2, step 1: the words `W_0` to `W_(15 + n)`.
unfoldable pub schedule : ℕ → Bytes → List ℕ
schedule zero block = words 16 block
schedule (suc n) block =
    let w = schedule n block in
    let t = 16 + n in
    w
    ++ ((sigma1 (get_or w (t - 2) 0)
          + get_or w (t - 7) 0
          + sigma0 (get_or w (t - 15) 0)
          + get_or w (t - 16) 0)
        % 2 ^ 32)
      ∷ []

-- The working variables `a` to `h`.
abbrev pub Working : Type 0
Working = ℕ × ℕ × ℕ × ℕ × ℕ × ℕ × ℕ × ℕ

-- Step 3, for one `t`.
abbrev pub step : ℕ → ℕ → Working → Working
step k w (a, b, c, d, e, f, g, h) =
    let t1 = (h + big_sigma1 e + ch e f g + k + w) % 2 ^ 32 in
    let t2 = (big_sigma0 a + maj a b c) % 2 ^ 32 in
    ((t1 + t2) % 2 ^ 32, a, b, c, (d + t1) % 2 ^ 32, e, f, g)

unfoldable pub steps : List ℕ → List ℕ → Working → Working
steps [] ws s = s
steps (k ∷ ks) [] s = s
steps (k ∷ ks) (w ∷ ws) s = steps ks ws (step k w s)

-- Step 4.
abbrev pub added : Working → Working → Working
added (a, b, c, d, e, f, g, h) (a', b', c', d', e', f', g', h') = (
  (a + a') % 2 ^ 32,
  (b + b') % 2 ^ 32,
  (c + c') % 2 ^ 32,
  (d + d') % 2 ^ 32,
  (e + e') % 2 ^ 32,
  (f + f') % 2 ^ 32,
  (g + g') % 2 ^ 32,
  (h + h') % 2 ^ 32,
)

unfoldable pub next_hash : Working → Bytes → Working
next_hash hash block = added hash (steps constants (schedule 48 block) hash)

unfoldable pub blocks : ℕ → Working → Bytes → Working
blocks zero hash m = hash
blocks (suc n) hash m = blocks n (next_hash hash (take 64 m)) (drop 64 m)

-- The highest byte first.
abbrev pub bytes4 : ℕ → Bytes
bytes4 x = x / 2 ^ 24 % 256 ∷ x / 2 ^ 16 % 256 ∷ x / 2 ^ 8 % 256 ∷ x % 256 ∷ []

abbrev pub bytes8 : ℕ → Bytes
bytes8 x = bytes4 (x / 2 ^ 32) ++ bytes4 x

-- Section 5.1.1: a one bit, zeros, and the number of bits in 64 bits; all of it fills blocks.
abbrev pub padded : Bytes → Bytes
padded m = m ++ 0x80 ∷ (replicate ((119 - length m % 64) % 64) 0 ++ bytes8 (length m * 8 % 2 ^ 64))

abbrev pub working : List ℕ → Working
working h = (
  get_or h 0 0,
  get_or h 1 0,
  get_or h 2 0,
  get_or h 3 0,
  get_or h 4 0,
  get_or h 5 0,
  get_or h 6 0,
  get_or h 7 0,
)

abbrev pub hash_bytes : Working → Bytes
hash_bytes (a, b, c, d, e, f, g, h) =
    bytes4 a
    ++ (bytes4 b ++ (bytes4 c ++ (bytes4 d ++ (bytes4 e ++ (bytes4 f ++ (bytes4 g ++ bytes4 h))))))

-- The message digest.
abbrev pub fips180 : Bytes → Bytes
fips180 m = hash_bytes (blocks (length (padded m) / 64) (working first_hash) (padded m))
