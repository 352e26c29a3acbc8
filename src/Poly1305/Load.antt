-- ===== src/Poly1305/Load.antt =====
-- The limbs of a block of 17 bytes are the number of its bytes.
use nano_dtls.Base.{
  ℕ, ◌+◌, ◌*◌, ◌^◌, ◌≤◌, ◌<◌, ◌≡◌, ap, ◌∙◌, arith, [], ◌∷◌, Bytes, IsBytes, get_or, gets,
  byte_bound, bit_and, bit_or, bit_and_mask, bit_or_low, ◌<<<◌, ◌>>>◌, ◌%◌,
}
use nano_dtls.Poly1305.{Limbs, bytes_to_limbs}
use nano_dtls.Poly1305.Multiply.{value}

-- The number of some bytes, the first the lowest.
abbrev pub number : Bytes → ℕ
number [] = 0
number (x ∷ xs) = x + 256 * number xs

-- Four parts joined by `|`, each behind the one before.
pub joined_parts :
    (a b c d k l m : ℕ)
    → a < 2 ^ k
    → a + b * 2 ^ k < 2 ^ l
    → a + b * 2 ^ k + c * 2 ^ l < 2 ^ m
    → bit_or (bit_or (bit_or a (b <<< k)) (c <<< l)) (d <<< m)
      ≡ a + b * 2 ^ k + c * 2 ^ l + d * 2 ^ m
joined_parts a b c d k l m ha hb hc =
    ap (λ (t : ℕ). bit_or (bit_or t (c <<< l)) (d <<< m)) (bit_or_low k a b ha)
    ∙ ap (λ (t : ℕ). bit_or t (d <<< m)) (bit_or_low l (a + b * 2 ^ k) c hb)
    ∙ bit_or_low m (a + b * 2 ^ k + c * 2 ^ l) d hc

pub record Loaded (buf : Bytes) (t : Limbs) : Type 0 where
  pub whole : value t ≡ number (gets 17 0 buf)
  pub t0 : t.l0 < 2 ^ 26
  pub t1 : t.l1 < 2 ^ 26
  pub t2 : t.l2 < 2 ^ 26
  pub t3 : t.l3 < 2 ^ 26
  pub t4 : t.l4 < 2 ^ 25

pub bytes_to_limbs-Loaded :
    (buf : Bytes) → IsBytes buf → get_or buf 16 0 ≤ 1 → Loaded buf (bytes_to_limbs buf)
unfolding bytes_to_limbs
bytes_to_limbs-Loaded buf h top =
    let b : ℕ → ℕ = λ i. get_or buf i 0 in
    let k0 = byte_bound buf 0 h in
    let k1 = byte_bound buf 1 h in
    let k2 = byte_bound buf 2 h in
    let k3 = byte_bound buf 3 h in
    let k4 = byte_bound buf 4 h in
    let k5 = byte_bound buf 5 h in
    let k6 = byte_bound buf 6 h in
    let k7 = byte_bound buf 7 h in
    let k8 = byte_bound buf 8 h in
    let k9 = byte_bound buf 9 h in
    let k10 = byte_bound buf 10 h in
    let k11 = byte_bound buf 11 h in
    let k12 = byte_bound buf 12 h in
    let k13 = byte_bound buf 13 h in
    let k14 = byte_bound buf 14 h in
    let k15 = byte_bound buf 15 h in
    let m3 : bit_and (b 3) 0x03 ≡ b 3 % 2 ^ 2 = bit_and_mask 2 (b 3) in
    let m6 : bit_and (b 6) 0x0f ≡ b 6 % 2 ^ 4 = bit_and_mask 4 (b 6) in
    let m9 : bit_and (b 9) 0x3f ≡ b 9 % 2 ^ 6 = bit_and_mask 6 (b 9) in
    let e0 =
      joined_parts (b 0) (b 1) (b 2) (bit_and (b 3) 0x03) 8 16 24 (omega arith) (omega arith)
        (omega arith) in
    let e1 =
      joined_parts (b 3 >>> 2) (b 4) (b 5) (bit_and (b 6) 0x0f) 6 14 22 (omega arith) (omega arith)
        (omega arith) in
    let e2 =
      joined_parts (b 6 >>> 4) (b 7) (b 8) (bit_and (b 9) 0x3f) 4 12 20 (omega arith) (omega arith)
        (omega arith) in
    let e3 =
      joined_parts (b 9 >>> 6) (b 10) (b 11) (b 12) 2 10 18 (omega arith) (omega arith)
        (omega arith) in
    let e4 =
      joined_parts (b 13) (b 14) (b 15) (b 16) 8 16 24 (omega arith) (omega arith) (omega arith) in
    rw (e0, e1, e2, e3, e4, m3, m6, m9)
      (record {
        whole = omega arith;
        t0 = omega arith;
        t1 = omega arith;
        t2 = omega arith;
        t3 = omega arith;
        t4 = omega arith;
      })
