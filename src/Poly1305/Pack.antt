-- ===== src/Poly1305/Pack.antt =====
-- The tag is the sum of the accumulator and the second half of the key modulo 2 ^ 128.
use nano_dtls.Base.{
  ℕ, ◌+◌, ◌*◌, ◌/◌, ◌%◌, ◌^◌, ◌<◌, ◌≡◌, ap, ◌∙◌, arith, ◌++◌, Bytes, IsBytes, get_or, gets,
  byte_bound, bit_or, bit_or_low, u32, u64, ◌<<<◌, ◌>>>◌,
}
use nano_dtls.Chacha20.{load_le32, store_le32}
use nano_dtls.Poly1305.{Limbs, pack}
use nano_dtls.Poly1305.Multiply.{value}
use nano_dtls.Poly1305.Load.{number, joined_parts}
use nano_dtls.Poly1305.Reduce.{Canonical}

pub load_le32-sum :
    (p : Bytes) (i : ℕ)
    → IsBytes p
    → load_le32 p i
      ≡ get_or p i 0
        + get_or p (i + 1) 0 * 2 ^ 8
        + get_or p (i + 2) 0 * 2 ^ 16
        + get_or p (i + 3) 0 * 2 ^ 24
load_le32-sum p i h =
    joined_parts (get_or p i 0) (get_or p (i + 1) 0) (get_or p (i + 2) 0) (get_or p (i + 3) 0) 8 16
      24 (byte_bound p i h) (omega (arith, byte_bound p i h, byte_bound p (i + 1) h))
      (omega (arith, byte_bound p i h, byte_bound p (i + 1) h, byte_bound p (i + 2) h))

-- Four bytes of a word, and what follows them.
number-store_le32 :
    (f : ℕ) (rest : Bytes) → number (store_le32 (u32 f) ++ rest) ≡ f % 2 ^ 32 + 2 ^ 32 * number rest
number-store_le32 f rest = omega arith

-- The four words of the accumulator.
word :
    (low high k l : ℕ) → low < 2 ^ k → u32 (bit_or low (high <<< k)) ≡ (low + high * 2 ^ k) % 2 ^ 32
word low high k l h = ap u32 (bit_or_low k low high h)

four_words :
    (f0 f1 f2 f3 : ℕ)
    → number (
        store_le32 (u32 f0)
        ++ (store_le32 (u32 f1) ++ (store_le32 (u32 f2) ++ store_le32 (u32 f3))))
      ≡ f0 % 2 ^ 32 + 2 ^ 32 * (f1 % 2 ^ 32 + 2 ^ 32 * (f2 % 2 ^ 32 + 2 ^ 32 * (f3 % 2 ^ 32)))
four_words f0 f1 f2 f3 = omega arith

sum_words :
    (w0 w1 w2 w3 p0 p1 p2 p3 v p : ℕ)
    → w0 < 2 ^ 32
    → w1 < 2 ^ 32
    → w2 < 2 ^ 32
    → w3 < 2 ^ 32
    → p0 < 2 ^ 32
    → p1 < 2 ^ 32
    → p2 < 2 ^ 32
    → p3 < 2 ^ 32
    → v % 2 ^ 128 ≡ w0 + w1 * 2 ^ 32 + w2 * 2 ^ 64 + w3 * 2 ^ 96
    → p ≡ p0 + p1 * 2 ^ 32 + p2 * 2 ^ 64 + p3 * 2 ^ 96
    → let f0 = u64 (w0 + p0) in
      let f1 = u64 (w1 + p1 + f0 >>> 32) in
      let f2 = u64 (w2 + p2 + f1 >>> 32) in
      let f3 = u64 (w3 + p3 + f2 >>> 32) in
      number (
        store_le32 (u32 f0)
        ++ (store_le32 (u32 f1) ++ (store_le32 (u32 f2) ++ store_le32 (u32 f3))))
      ≡ (v + p) % 2 ^ 128
sum_words w0 w1 w2 w3 p0 p1 p2 p3 v p h0 h1 h2 h3 k0 k1 k2 k3 ev ep =
    let f0 : ℕ = w0 + p0 in
    let f1 : ℕ = w1 + p1 + f0 / 2 ^ 32 in
    let f2 : ℕ = w2 + p2 + f1 / 2 ^ 32 in
    let f3 : ℕ = w3 + p3 + f2 / 2 ^ 32 in
    let e0 : u64 (w0 + p0) ≡ f0 = omega arith in
    let e1 : u64 (w1 + p1 + f0 >>> 32) ≡ f1 = omega arith in
    let e2 : u64 (w2 + p2 + f1 >>> 32) ≡ f2 = omega arith in
    let e3 : u64 (w3 + p3 + f2 >>> 32) ≡ f3 = omega arith in
    rw (e0, e1, e2, e3) (four_words f0 f1 f2 f3 ∙ omega arith)

-- For limbs of 26 bits the packing gives the 16 bytes of the sum with the pad, modulo 2 ^ 128.
pub pack-number :
    (r : Limbs) (pad : Bytes)
    → Canonical r
    → IsBytes pad
    → number (pack r pad) ≡ (value r + number (gets 16 0 pad)) % 2 ^ 128
unfolding pack
pack-number r pad c h =
    let c0 = c.c0 in
    let c1 = c.c1 in
    let c2 = c.c2 in
    let c3 = c.c3 in
    let c4 = c.c4 in
    let b : ℕ → ℕ = λ i. get_or pad i 0 in
    let w0 : ℕ = (r.l0 + r.l1 * 2 ^ 26) % 2 ^ 32 in
    let w1 : ℕ = (r.l1 >>> 6 + r.l2 * 2 ^ 20) % 2 ^ 32 in
    let w2 : ℕ = (r.l2 >>> 12 + r.l3 * 2 ^ 14) % 2 ^ 32 in
    let w3 : ℕ = (r.l3 >>> 18 + r.l4 * 2 ^ 8) % 2 ^ 32 in
    let p : ℕ → ℕ = λ i. b i + b (i + 1) * 2 ^ 8 + b (i + 2) * 2 ^ 16 + b (i + 3) * 2 ^ 24 in
    rw
      (
        word r.l0 r.l1 26 0 (omega arith),
        word (r.l1 >>> 6) r.l2 20 0 (omega arith),
        word (r.l2 >>> 12) r.l3 14 0 (omega arith),
        word (r.l3 >>> 18) r.l4 8 0 (omega arith),
        load_le32-sum pad 0 h,
        load_le32-sum pad 4 h,
        load_le32-sum pad 8 h,
        load_le32-sum pad 12 h,
      )
      (sum_words w0 w1 w2 w3 (p 0) (p 4) (p 8) (p 12) (value r) (number (gets 16 0 pad))
        (omega arith) (omega arith) (omega arith) (omega arith) (four 0) (four 4) (four 8) (four 12)
        (omega arith) (omega arith))
  where
    four :
        (i : ℕ)
        → get_or pad i 0
            + get_or pad (i + 1) 0 * 2 ^ 8
            + get_or pad (i + 2) 0 * 2 ^ 16
            + get_or pad (i + 3) 0 * 2 ^ 24
          < 2 ^ 32
    four i = omega (
      arith,
      byte_bound pad i h,
      byte_bound pad (i + 1) h,
      byte_bound pad (i + 2) h,
      byte_bound pad (i + 3) h,
    )
