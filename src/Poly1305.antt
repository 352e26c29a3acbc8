-- ===== src/Poly1305.antt =====
-- The one-time authenticator of src/crypto/poly1305.c: five limbs of 26 bits, and the streaming
-- interface. The arrays of fixed size are lists; `load_le32` and `store_le32` are those of
-- src/crypto/chacha20.c.
pub mod Multiply
pub mod Mac
pub mod Pack
pub mod Final
pub mod Begin
pub mod Whole
pub mod Load
pub mod Reduce
mod Tests
use nano_dtls.Base.{
  ℕ, zero, suc, ◌+◌, ◌-◌, ◌*◌, Bool, true, false, not, ◌==◌, [], ◌∷◌, ◌++◌, bit_and, bit_or, min,
  ltb, leb, if◌then◌else◌, Bytes, length, get_or, take, drop, slice, replicate, write_at, u32, u64,
  ◌<<<◌, ◌>>>◌,
}
use nano_dtls.Chacha20.{load_le32, store_le32}

abbrev pub mask26 : ℕ
mask26 = 0x3ffffff

-- `uint32_t t[5]`
pub record Limbs : Type 0 where
  pub l0 : ℕ
  pub l1 : ℕ
  pub l2 : ℕ
  pub l3 : ℕ
  pub l4 : ℕ

-- `r[i] &= mask`
abbrev pub mask_at : ℕ → ℕ → Bytes → Bytes
mask_at i mask r = write_at r i (bit_and (get_or r i 0) mask ∷ [])

unfoldable pub clamp_r : Bytes → Bytes
clamp_r r =
    mask_at 12 252 (
      mask_at 8 252 (mask_at 4 252 (mask_at 15 15 (mask_at 11 15 (mask_at 7 15 (mask_at 3 15 r))))))

unfoldable pub bytes_to_limbs : Bytes → Limbs
bytes_to_limbs buf =
    let b : ℕ → ℕ = λ i. get_or buf i 0 in
    record {
      l0 = bit_or (bit_or (bit_or (b 0) (b 1 <<< 8)) (b 2 <<< 16)) (bit_and (b 3) 0x03 <<< 24);
      l1 =
          bit_or (bit_or (bit_or (b 3 >>> 2) (b 4 <<< 6)) (b 5 <<< 14)) (bit_and (b 6) 0x0f <<< 22);
      l2 =
          bit_or (bit_or (bit_or (b 6 >>> 4) (b 7 <<< 4)) (b 8 <<< 12)) (bit_and (b 9) 0x3f <<< 20);
      l3 = bit_or (bit_or (bit_or (b 9 >>> 6) (b 10 <<< 2)) (b 11 <<< 10)) (b 12 <<< 18);
      l4 = bit_or (bit_or (bit_or (b 13) (b 14 <<< 8)) (b 15 <<< 16)) (b 16 <<< 24);
    }

-- `s[i] = r[i + 1] * 5`
pub record Fives : Type 0 where
  pub s0 : ℕ
  pub s1 : ℕ
  pub s2 : ℕ
  pub s3 : ℕ

abbrev pub fives : Limbs → Fives
fives r = record {
  s0 = u32 (r.l1 * 5);
  s1 = u32 (r.l2 * 5);
  s2 = u32 (r.l3 * 5);
  s3 = u32 (r.l4 * 5);
}

-- The sums `d0` to `d4` of products.
abbrev pub products : Limbs → Limbs → Fives → Limbs
products h r s = record {
  l0 = u64 (h.l0 * r.l0 + h.l1 * s.s3 + h.l2 * s.s2 + h.l3 * s.s1 + h.l4 * s.s0);
  l1 = u64 (h.l0 * r.l1 + h.l1 * r.l0 + h.l2 * s.s3 + h.l3 * s.s2 + h.l4 * s.s1);
  l2 = u64 (h.l0 * r.l2 + h.l1 * r.l1 + h.l2 * r.l0 + h.l3 * s.s3 + h.l4 * s.s2);
  l3 = u64 (h.l0 * r.l3 + h.l1 * r.l2 + h.l2 * r.l1 + h.l3 * r.l0 + h.l4 * s.s3);
  l4 = u64 (h.l0 * r.l4 + h.l1 * r.l3 + h.l2 * r.l2 + h.l3 * r.l1 + h.l4 * r.l0);
}

-- The carries of `poly1305_mulmod`.
unfoldable pub carry : Limbs → Limbs
carry d =
    let d1 = u64 (d.l1 + d.l0 >>> 26) in
    let d2 = u64 (d.l2 + d1 >>> 26) in
    let d3 = u64 (d.l3 + d2 >>> 26) in
    let d4 = u64 (d.l4 + d3 >>> 26) in
    let h0 = u32 (u32 (bit_and d.l0 mask26) + u32 (u64 (d4 >>> 26 * 5))) in
    record {
      l0 = bit_and h0 mask26;
      l1 = u32 (u32 (bit_and d1 mask26) + h0 >>> 26);
      l2 = u32 (bit_and d2 mask26);
      l3 = u32 (bit_and d3 mask26);
      l4 = u32 (bit_and d4 mask26);
    }

-- `poly1305_mulmod`
abbrev pub mulmod : Limbs → Limbs → Fives → Limbs
mulmod h r s = carry (products h r s)

-- `nd_poly1305_ctx`; `buf` holds its first `buf_len` bytes.
pub record Ctx : Type 0 where
  pub r : Limbs
  pub s : Fives
  pub h : Limbs
  pub pad : Bytes
  pub buf : Bytes

abbrev pub add_limbs : Limbs → Limbs → Limbs
add_limbs h t = record {
  l0 = u32 (h.l0 + t.l0);
  l1 = u32 (h.l1 + t.l1);
  l2 = u32 (h.l2 + t.l2);
  l3 = u32 (h.l3 + t.l3);
  l4 = u32 (h.l4 + t.l4);
}

-- A block of 17 bytes is added, and the sum multiplied.
abbrev pub add_block17 : Ctx → Bytes → Ctx
add_block17 ctx block17 = record ctx {
  h = mulmod (add_limbs ctx.h (bytes_to_limbs block17)) ctx.r ctx.s;
}

unfoldable pub process_full_block : Ctx → Bytes → Ctx
process_full_block ctx block = add_block17 ctx (block ++ 0x01 ∷ [])

-- `nd_poly1305_init`
unfoldable pub init : Bytes → Ctx
init key =
    let r = bytes_to_limbs (clamp_r (take 16 key) ++ 0 ∷ []) in
    record {
      r = r;
      s = fives r;
      h = record { l0 = 0; l1 = 0; l2 = 0; l3 = 0; l4 = 0 };
      pad = slice key 16 16;
      buf = [];
    }

-- The loop over full blocks, and the copy of what is left.
unfoldable pub update_loop : ℕ → Ctx → Bytes → Ctx
update_loop zero ctx block_data = ctx
update_loop (suc fuel) ctx block_data =
    let rest =
      update_loop fuel (process_full_block ctx (take 16 block_data)) (drop 16 block_data) in
    if leb 16 (length block_data)
    then rest
    else if length block_data == 0
    then ctx
    else record ctx { buf = block_data }

-- The copy to the block that was begun: the context, before the loop.
abbrev pub fill_buf : Ctx → Bytes → Ctx
fill_buf ctx block_data =
    let full = ctx.buf ++ block_data in
    if length full == 16
    then record (process_full_block ctx full) { buf = [] }
    else record ctx { buf = full }

-- `nd_poly1305_update`. A round takes 16 bytes, so that the length and one more is fuel enough.
unfoldable pub update : Ctx → Bytes → Ctx
update ctx block_data =
    let n = min (16 - length ctx.buf) (length block_data) in
    if length ctx.buf == 0
    then update_loop (suc (length block_data)) ctx block_data
    else update_loop (suc (length block_data)) (fill_buf ctx (take n block_data))
        (drop n block_data)

-- The last block, where one was begun.
abbrev pub last_block : Ctx → Ctx
last_block ctx =
    if ltb 0 (length ctx.buf)
    then add_block17 ctx (ctx.buf ++ (0x01 ∷ replicate (16 - length ctx.buf) 0))
    else ctx

-- The full carry pass.
unfoldable pub full_carry : Limbs → Limbs
full_carry h =
    let h2 = u32 (h.l2 + h.l1 >>> 26) in
    let h3 = u32 (h.l3 + h2 >>> 26) in
    let h4 = u32 (h.l4 + h3 >>> 26) in
    let h0 = u32 (h.l0 + u32 (h4 >>> 26 * 5)) in
    let h1 = u32 (bit_and h.l1 mask26 + h0 >>> 26) in
    record {
      l0 = bit_and h0 mask26;
      l1 = bit_and h1 mask26;
      l2 = u32 (bit_and h2 mask26 + h1 >>> 26);
      l3 = bit_and h3 mask26;
      l4 = bit_and h4 mask26;
    }

-- `b = h - c - borrow; borrow = b < 0; if (borrow) b += 0x4000000;`
abbrev pub sub_limb : ℕ → ℕ → Bool → ℕ × Bool
sub_limb h c borrow =
    let taken = c + (if borrow then 1 else 0) in
    if ltb h taken then (h + 0x4000000 - taken, true) else (h - taken, false)

-- `h - p` if it is not negative, and `h` otherwise, where the last difference is not used.
unfoldable pub reduce_once : Limbs → Limbs
reduce_once h =
    let (b0, c0) = sub_limb h.l0 0x3fffffb false in
    let (b1, c1) = sub_limb h.l1 0x3ffffff c0 in
    let (b2, c2) = sub_limb h.l2 0x3ffffff c1 in
    let (b3, c3) = sub_limb h.l3 0x3ffffff c2 in
    let (b4, c4) = sub_limb h.l4 0x3ffffff c3 in
    if c4 then h else record { l0 = b0; l1 = b1; l2 = b2; l3 = b3; l4 = b4 }

-- The packing to four words, and the addition of the second half of the key.
unfoldable pub pack : Limbs → Bytes → Bytes
pack r pad =
    let f0 = u64 (u32 (bit_or r.l0 (r.l1 <<< 26)) + load_le32 pad 0) in
    let f1 = u64 (u32 (bit_or (r.l1 >>> 6) (r.l2 <<< 20)) + load_le32 pad 4 + f0 >>> 32) in
    let f2 = u64 (u32 (bit_or (r.l2 >>> 12) (r.l3 <<< 14)) + load_le32 pad 8 + f1 >>> 32) in
    let f3 = u64 (u32 (bit_or (r.l3 >>> 18) (r.l4 <<< 8)) + load_le32 pad 12 + f2 >>> 32) in
    store_le32 (u32 f0) ++ (store_le32 (u32 f1) ++ (store_le32 (u32 f2) ++ store_le32 (u32 f3)))

-- `nd_poly1305_final`
unfoldable pub final : Ctx → Bytes
final ctx = pack (reduce_once (full_carry (last_block ctx).h)) ctx.pad

-- `nd_poly1305_mac`
abbrev pub poly1305_mac : Bytes → Bytes → Bytes
poly1305_mac key msg = final (update (init key) msg)
