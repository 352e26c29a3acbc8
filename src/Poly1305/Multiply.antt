-- ===== src/Poly1305/Multiply.antt =====
-- The multiplication is one modulo 2 ^ 130 - 5.
use nano_dtls.Base.{
  ◌/◌, ℕ, ◌+◌, ◌-◌, ◌*◌, ◌^◌, ◌≤◌, ◌<◌, ◌%◌, ◌≡◌, ap, ◌∙◌, arith, u32, u64, bit_and, bit_and_mask,
  ◌>>>◌,
}
use native.Mathlib.Nat.{mul-le-mul}
use nano_dtls.Poly1305.{Limbs, fives, products, carry, mulmod, mask26}

-- The number of the limbs.
abbrev pub value : Limbs → ℕ
value x = x.l0 + x.l1 * 2 ^ 26 + x.l2 * 2 ^ 52 + x.l3 * 2 ^ 78 + x.l4 * 2 ^ 104

-- The sums of products before they are carried.
abbrev pub raw : Limbs → Limbs → Limbs
raw h r = record {
  l0 = h.l0 * r.l0 + h.l1 * (5 * r.l4) + h.l2 * (5 * r.l3) + h.l3 * (5 * r.l2) + h.l4 * (5 * r.l1);
  l1 = h.l0 * r.l1 + h.l1 * r.l0 + h.l2 * (5 * r.l4) + h.l3 * (5 * r.l3) + h.l4 * (5 * r.l2);
  l2 = h.l0 * r.l2 + h.l1 * r.l1 + h.l2 * r.l0 + h.l3 * (5 * r.l4) + h.l4 * (5 * r.l3);
  l3 = h.l0 * r.l3 + h.l1 * r.l2 + h.l2 * r.l1 + h.l3 * r.l0 + h.l4 * (5 * r.l4);
  l4 = h.l0 * r.l4 + h.l1 * r.l3 + h.l2 * r.l2 + h.l3 * r.l1 + h.l4 * r.l0;
}

-- What was folded back, in multiples of 2 ^ 130 - 5.
abbrev folded : Limbs → Limbs → ℕ
folded h r =
    h.l1 * r.l4
    + h.l2 * r.l3
    + h.l3 * r.l2
    + h.l4 * r.l1
    + (h.l2 * r.l4 + h.l3 * r.l3 + h.l4 * r.l2) * 2 ^ 26
    + (h.l3 * r.l4 + h.l4 * r.l3) * 2 ^ 52
    + h.l4 * r.l4 * 2 ^ 78

raw-value : (h r : Limbs) → value h * value r ≡ value (raw h r) + folded h r * (2 ^ 130 - 5)
raw-value h r = omega arith

-- What the limbs of the accumulator and of the key are below.
pub record Accumulator (h : Limbs) : Type 0 where
  pub b0 : h.l0 ≤ 2 ^ 27 + 64
  pub b1 : h.l1 ≤ 2 ^ 27 + 64
  pub b2 : h.l2 ≤ 2 ^ 27 + 64
  pub b3 : h.l3 ≤ 2 ^ 27 + 64
  pub b4 : h.l4 ≤ 2 ^ 27 + 64

pub record Key (r : Limbs) : Type 0 where
  pub k0 : r.l0 ≤ 2 ^ 26
  pub k1 : r.l1 ≤ 2 ^ 26
  pub k2 : r.l2 ≤ 2 ^ 26
  pub k3 : r.l3 ≤ 2 ^ 26
  pub k4 : r.l4 ≤ 2 ^ 26

-- The sums fit 64 bits.
record Sums (d : Limbs) : Type 0 where
  d0 : d.l0 < 2 ^ 59
  d1 : d.l1 < 2 ^ 59
  d2 : d.l2 < 2 ^ 59
  d3 : d.l3 < 2 ^ 59
  d4 : d.l4 < 5 * (2 ^ 27 + 64) * 2 ^ 26 + 1

raw-Sums : (h r : Limbs) → Accumulator h → Key r → Sums (raw h r)
raw-Sums h r a k = record {
  d0 = omega (
    arith,
    mul-le-mul a.b0 k.k0,
    mul-le-mul a.b1 k.k4,
    mul-le-mul a.b2 k.k3,
    mul-le-mul a.b3 k.k2,
    mul-le-mul a.b4 k.k1,
  );
  d1 = omega (
    arith,
    mul-le-mul a.b0 k.k1,
    mul-le-mul a.b1 k.k0,
    mul-le-mul a.b2 k.k4,
    mul-le-mul a.b3 k.k3,
    mul-le-mul a.b4 k.k2,
  );
  d2 = omega (
    arith,
    mul-le-mul a.b0 k.k2,
    mul-le-mul a.b1 k.k1,
    mul-le-mul a.b2 k.k0,
    mul-le-mul a.b3 k.k4,
    mul-le-mul a.b4 k.k3,
  );
  d3 = omega (
    arith,
    mul-le-mul a.b0 k.k3,
    mul-le-mul a.b1 k.k2,
    mul-le-mul a.b2 k.k1,
    mul-le-mul a.b3 k.k0,
    mul-le-mul a.b4 k.k4,
  );
  d4 = omega (
    arith,
    mul-le-mul a.b0 k.k4,
    mul-le-mul a.b1 k.k3,
    mul-le-mul a.b2 k.k2,
    mul-le-mul a.b3 k.k1,
    mul-le-mul a.b4 k.k0,
  );
}

-- Nothing wraps: the sums of the code are the products.
products-raw : (h r : Limbs) → Key r → Sums (raw h r) → products h r (fives r) ≡ raw h r
products-raw h r k d =
    let e0 : u32 (r.l1 * 5) ≡ 5 * r.l1 = omega (arith, k.k1) in
    let e1 : u32 (r.l2 * 5) ≡ 5 * r.l2 = omega (arith, k.k2) in
    let e2 : u32 (r.l3 * 5) ≡ 5 * r.l3 = omega (arith, k.k3) in
    let e3 : u32 (r.l4 * 5) ≡ 5 * r.l4 = omega (arith, k.k4) in
    rw (e0, e1, e2, e3)
      (λ i. record {
        l0 = small (raw h r).l0 (omega (arith, d.d0)) i;
        l1 = small (raw h r).l1 (omega (arith, d.d1)) i;
        l2 = small (raw h r).l2 (omega (arith, d.d2)) i;
        l3 = small (raw h r).l3 (omega (arith, d.d3)) i;
        l4 = small (raw h r).l4 (omega (arith, d.d4)) i;
      })
  where
    small : (n : ℕ) → n < 2 ^ 64 → u64 n ≡ n
    small n h = omega arith

-- The carries in plain arithmetic.
abbrev carried : Limbs → Limbs
carried d =
    let d1 = d.l1 + d.l0 / 2 ^ 26 in
    let d2 = d.l2 + d1 / 2 ^ 26 in
    let d3 = d.l3 + d2 / 2 ^ 26 in
    let d4 = d.l4 + d3 / 2 ^ 26 in
    let h0 = d.l0 % 2 ^ 26 + d4 / 2 ^ 26 * 5 in
    record {
      l0 = h0 % 2 ^ 26;
      l1 = d1 % 2 ^ 26 + h0 / 2 ^ 26;
      l2 = d2 % 2 ^ 26;
      l3 = d3 % 2 ^ 26;
      l4 = d4 % 2 ^ 26;
    }

carry-carried : (d : Limbs) → Sums d → carry d ≡ carried d
unfolding carry
carry-carried d sums =
    let b0 = sums.d0 in
    let b1 = sums.d1 in
    let b2 = sums.d2 in
    let b3 = sums.d3 in
    let b4 = sums.d4 in
    let d1 : ℕ = d.l1 + d.l0 / 2 ^ 26 in
    let d2 : ℕ = d.l2 + d1 / 2 ^ 26 in
    let d3 : ℕ = d.l3 + d2 / 2 ^ 26 in
    let d4 : ℕ = d.l4 + d3 / 2 ^ 26 in
    let h0 : ℕ = d.l0 % 2 ^ 26 + d4 / 2 ^ 26 * 5 in
    let e1 : u64 (d.l1 + d.l0 >>> 26) ≡ d1 = omega arith in
    let e2 : u64 (d.l2 + d1 >>> 26) ≡ d2 = omega arith in
    let e3 : u64 (d.l3 + d2 >>> 26) ≡ d3 = omega arith in
    let e4 : u64 (d.l4 + d3 >>> 26) ≡ d4 = omega arith in
    let e0 : u32 (u32 (bit_and d.l0 mask26) + u32 (u64 (d4 >>> 26 * 5))) ≡ h0 =
      rw (bit_and_mask 26 d.l0) (omega arith) in
    rw (e1, e2, e3, e4, e0)
      (λ i. record {
        l0 = bit_and_mask 26 h0 i;
        l1 = low d1 (h0 >>> 26) (omega arith) i;
        l2 = masked d2 i;
        l3 = masked d3 i;
        l4 = masked d4 i;
      })
  where
    masked : (n : ℕ) → u32 (bit_and n mask26) ≡ n % 2 ^ 26
    masked n = rw (bit_and_mask 26 n) (omega arith)

    low : (n c : ℕ) → c < 2 ^ 31 → u32 (u32 (bit_and n mask26) + c) ≡ n % 2 ^ 26 + c
    low n c h = rw (bit_and_mask 26 n) (omega arith)

-- A multiple of 2 ^ 130 - 5 is all that the carries take away.
carried-value :
    (d : Limbs)
    → value d
      ≡ value (carried d)
        + (d.l4 + (d.l3 + (d.l2 + (d.l1 + d.l0 / 2 ^ 26) / 2 ^ 26) / 2 ^ 26) / 2 ^ 26)
          / 2 ^ 26
          * (2 ^ 130 - 5)
carried-value d = omega arith

-- The limbs of a result.
pub record Carried (h : Limbs) : Type 0 where
  pub c0 : h.l0 < 2 ^ 26
  pub c1 : h.l1 < 2 ^ 26 + 64
  pub c2 : h.l2 < 2 ^ 26
  pub c3 : h.l3 < 2 ^ 26
  pub c4 : h.l4 < 2 ^ 26

carried-Carried : (d : Limbs) → Sums d → Carried (carried d)
carried-Carried d sums =
    let b3 = sums.d3 in
    let b2 = sums.d2 in
    let b1 = sums.d1 in
    let b0 = sums.d0 in
    let b4 = sums.d4 in
    record {
      c0 = omega arith;
      c1 = omega arith;
      c2 = omega arith;
      c3 = omega arith;
      c4 = omega arith;
    }

-- For limbs of the accumulator of at most 2 ^ 27 + 64 and limbs of the key of at most 2 ^ 26, no sum
-- of the code wraps, the result is the product modulo 2 ^ 130 - 5, and all of its limbs are below
-- 2 ^ 26 but the second, which is below 2 ^ 26 + 64.
pub mulmod-value :
    (h r : Limbs)
    → Accumulator h
    → Key r
    → Carried (mulmod h r (fives r))
      × ((k : ℕ) × (value h * value r ≡ value (mulmod h r (fives r)) + k * (2 ^ 130 - 5)))
mulmod-value h r a k =
    let d : Limbs = raw h r in
    let sums : Sums d = raw-Sums h r a k in
    let same : mulmod h r (fives r) ≡ carried d =
      ap carry (products-raw h r k sums) ∙ carry-carried d sums in
    let top : ℕ =
      (d.l4 + (d.l3 + (d.l2 + (d.l1 + d.l0 / 2 ^ 26) / 2 ^ 26) / 2 ^ 26) / 2 ^ 26) / 2 ^ 26 in
    rw same (
      carried-Carried d sums,
      (
        top + folded h r,
        sum_up (value h * value r) (value d) (value (carried d)) top (folded h r) (raw-value h r)
            (carried-value d),
      ),
    )
  where
    sum_up :
        (product sum out top back : ℕ)
        → product ≡ sum + back * (2 ^ 130 - 5)
        → sum ≡ out + top * (2 ^ 130 - 5)
        → product ≡ out + (top + back) * (2 ^ 130 - 5)
    sum_up product sum out top back h k = omega arith
