-- ===== src/Poly1305/Reduce.antt =====
-- The last reduction of the accumulator is the remainder modulo 2 ^ 130 - 5.
use nano_dtls.Base.{
  ℕ, ◌+◌, ◌-◌, ◌*◌, ◌/◌, ◌%◌, ◌^◌, ◌<◌, ◌≡◌, ◌∙◌, arith, Bool, true, false, if◌then◌else◌, u32,
  bit_and, bit_and_mask, ◌>>>◌,
}
use nano_dtls.Poly1305.{Limbs, mask26, full_carry, sub_limb, reduce_once}
use nano_dtls.Poly1305.Multiply.{value, Carried}

-- The full carry pass in plain arithmetic.
abbrev passed : Limbs → Limbs
passed h =
    let h2 = h.l2 + h.l1 / 2 ^ 26 in
    let h3 = h.l3 + h2 / 2 ^ 26 in
    let h4 = h.l4 + h3 / 2 ^ 26 in
    let h0 = h.l0 + h4 / 2 ^ 26 * 5 in
    let h1 = h.l1 % 2 ^ 26 + h0 / 2 ^ 26 in
    record {
      l0 = h0 % 2 ^ 26;
      l1 = h1 % 2 ^ 26;
      l2 = h2 % 2 ^ 26 + h1 / 2 ^ 26;
      l3 = h3 % 2 ^ 26;
      l4 = h4 % 2 ^ 26;
    }

full_carry-passed : (h : Limbs) → Carried h → full_carry h ≡ passed h
unfolding full_carry
full_carry-passed h c =
    let c0 = c.c0 in
    let c1 = c.c1 in
    let c2 = c.c2 in
    let c3 = c.c3 in
    let c4 = c.c4 in
    let h2 : ℕ = h.l2 + h.l1 / 2 ^ 26 in
    let h3 : ℕ = h.l3 + h2 / 2 ^ 26 in
    let h4 : ℕ = h.l4 + h3 / 2 ^ 26 in
    let h0 : ℕ = h.l0 + h4 / 2 ^ 26 * 5 in
    let h1 : ℕ = h.l1 % 2 ^ 26 + h0 / 2 ^ 26 in
    let e2 : u32 (h.l2 + h.l1 >>> 26) ≡ h2 = omega arith in
    let e3 : u32 (h.l3 + h2 >>> 26) ≡ h3 = omega arith in
    let e4 : u32 (h.l4 + h3 >>> 26) ≡ h4 = omega arith in
    let e0 : u32 (h.l0 + u32 (h4 >>> 26 * 5)) ≡ h0 = omega arith in
    let e1 : u32 (bit_and h.l1 mask26 + h0 >>> 26) ≡ h1 = rw (bit_and_mask 26 h.l1) (omega arith) in
    rw (e2, e3, e4, e0, e1)
      (λ i. record {
        l0 = bit_and_mask 26 h0 i;
        l1 = bit_and_mask 26 h1 i;
        l2 = low h2 (h1 >>> 26) (omega arith) i;
        l3 = bit_and_mask 26 h3 i;
        l4 = bit_and_mask 26 h4 i;
      })
  where
    low : (n c : ℕ) → c < 2 ^ 31 → u32 (bit_and n mask26 + c) ≡ n % 2 ^ 26 + c
    low n c h = rw (bit_and_mask 26 n) (omega arith)

-- Five limbs of 26 bits.
pub record Canonical (h : Limbs) : Type 0 where
  pub c0 : h.l0 < 2 ^ 26
  pub c1 : h.l1 < 2 ^ 26
  pub c2 : h.l2 < 2 ^ 26
  pub c3 : h.l3 < 2 ^ 26
  pub c4 : h.l4 < 2 ^ 26

passed-Canonical : (h : Limbs) → Carried h → Canonical (passed h)
passed-Canonical h c =
    let c0 = c.c0 in
    let c1 = c.c1 in
    let c2 = c.c2 in
    let c3 = c.c3 in
    let c4 = c.c4 in
    record {
      c0 = omega arith;
      c1 = omega arith;
      c2 = omega arith;
      c3 = omega arith;
      c4 = omega arith;
    }

passed-value :
    (h : Limbs)
    → value h
      ≡ value (passed h)
        + (h.l4 + (h.l3 + (h.l2 + h.l1 / 2 ^ 26) / 2 ^ 26) / 2 ^ 26) / 2 ^ 26 * (2 ^ 130 - 5)
passed-value h = omega arith

abbrev bit : Bool → ℕ
bit b = if b then 1 else 0

-- The difference of two limbs, with the borrows.
sub_limb_lem :
    (h c : ℕ) (borrow : Bool)
    → h < 2 ^ 26
    → c < 2 ^ 26
    → ((sub_limb h c borrow).0 < 2 ^ 26)
      × (h + bit (sub_limb h c borrow).1 * 2 ^ 26 ≡ (sub_limb h c borrow).0 + c + bit borrow)
sub_limb_lem h c true hh hc = ground arith
sub_limb_lem h c false hh hc = ground arith

-- The five differences, and the borrow that is left.
abbrev difference : Limbs → Limbs × Bool
difference h =
    let (b0, c0) = sub_limb h.l0 0x3fffffb false in
    let (b1, c1) = sub_limb h.l1 0x3ffffff c0 in
    let (b2, c2) = sub_limb h.l2 0x3ffffff c1 in
    let (b3, c3) = sub_limb h.l3 0x3ffffff c2 in
    let (b4, c4) = sub_limb h.l4 0x3ffffff c3 in
    (record { l0 = b0; l1 = b1; l2 = b2; l3 = b3; l4 = b4 }, c4)

difference-value :
    (h : Limbs)
    → Canonical h
    → Canonical (difference h).0
      × (value h + bit (difference h).1 * 2 ^ 130 ≡ value (difference h).0 + (2 ^ 130 - 5))
difference-value h c =
    let (b0, c0) = sub_limb h.l0 0x3fffffb false in
    let (b1, c1) = sub_limb h.l1 0x3ffffff c0 in
    let (b2, c2) = sub_limb h.l2 0x3ffffff c1 in
    let (b3, c3) = sub_limb h.l3 0x3ffffff c2 in
    let (l0, e0) = sub_limb_lem h.l0 0x3fffffb false c.c0 (omega arith) in
    let (l1, e1) = sub_limb_lem h.l1 0x3ffffff c0 c.c1 (omega arith) in
    let (l2, e2) = sub_limb_lem h.l2 0x3ffffff c1 c.c2 (omega arith) in
    let (l3, e3) = sub_limb_lem h.l3 0x3ffffff c2 c.c3 (omega arith) in
    let (l4, e4) = sub_limb_lem h.l4 0x3ffffff c3 c.c4 (omega arith) in
    (record { c0 = l0; c1 = l1; c2 = l2; c3 = l3; c4 = l4 }, omega (arith, e0, e1, e2, e3, e4))

-- `p` is taken away once if that leaves no borrow.
reduce_once-remainder :
    (h : Limbs)
    → Canonical h
    → Canonical (reduce_once h) × (value (reduce_once h) ≡ value h % (2 ^ 130 - 5))
unfolding reduce_once
reduce_once-remainder h c =
    let (small, balance) = difference-value h c in
    let c0 = c.c0 in
    let c1 = c.c1 in
    let c2 = c.c2 in
    let c3 = c.c3 in
    let c4 = c.c4 in
    let below : value h < 2 ^ 130 = omega arith in
    of_borrow (difference h).1 (difference h).0 small balance below
  where
    fits : (x : Limbs) → Canonical x → value x < 2 ^ 130
    fits x k =
        let k0 = k.c0 in
        let k1 = k.c1 in let k2 = k.c2 in let k3 = k.c3 in let k4 = k.c4 in omega arith

    of_borrow :
        (borrow : Bool) (rest : Limbs)
        → Canonical rest
        → value h + bit borrow * 2 ^ 130 ≡ value rest + (2 ^ 130 - 5)
        → value h < 2 ^ 130
        → Canonical (if borrow then h else rest)
          × (value (if borrow then h else rest) ≡ value h % (2 ^ 130 - 5))
    of_borrow true rest small e below = (c, ends (value h) (value rest) (fits rest small) e)
      where
        ends : (n m : ℕ) → m < 2 ^ 130 → n + 1 * 2 ^ 130 ≡ m + (2 ^ 130 - 5) → n ≡ n % (2 ^ 130 - 5)
        ends n m k e = omega arith
    of_borrow false rest small e below = (small, omega (arith, e, below))

pub same_remainder : (n m k : ℕ) → n ≡ m + k * (2 ^ 130 - 5) → m % (2 ^ 130 - 5) ≡ n % (2 ^ 130 - 5)
same_remainder n m k e = omega arith

-- For an accumulator as the multiplication leaves it, the carry pass and the subtraction at the end
-- of the MAC give the remainder modulo 2 ^ 130 - 5, in five limbs below 2 ^ 26.
pub reduce_once-full_carry :
    (h : Limbs)
    → Carried h
    → Canonical (reduce_once (full_carry h))
      × (value (reduce_once (full_carry h)) ≡ value h % (2 ^ 130 - 5))
reduce_once-full_carry h c =
    let (small, remainder) = reduce_once-remainder (passed h) (passed-Canonical h c) in
    rw (full_carry-passed h c)
      (small, remainder ∙ same_remainder (value h) (value (passed h)) _ (passed-value h))
