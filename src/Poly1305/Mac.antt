-- ===== src/Poly1305/Mac.antt =====
-- A block is added to the accumulator, which is then multiplied with the key.
use nano_dtls.Base.{
  ℕ, ◌+◌, ◌-◌, ◌*◌, ◌%◌, ◌^◌, ◌≤◌, ◌≡◌, ap, sym, ◌∙◌, arith, [], ◌∷◌, ◌++◌, Bytes, IsBytes,
  IsBytes-append, length, length-append, get_or, get_or_behind, gets, take-eq-gets, take_short,
}
use nano_dtls.Poly1305.{
  Limbs, Ctx, fives, mulmod, add_limbs, add_block17, process_full_block, bytes_to_limbs,
}
use nano_dtls.Poly1305.Multiply.{value, Accumulator, Key, Carried, mulmod-value}
use nano_dtls.Poly1305.Load.{number, Loaded, bytes_to_limbs-Loaded}
use nano_dtls.Poly1305.Reduce.{same_remainder}

-- A context between two blocks.
pub record Between (ctx : Ctx) : Type 0 where
  pub fives_of : ctx.s ≡ fives ctx.r
  pub key : Key ctx.r
  pub carried : Carried ctx.h

-- Nothing wraps where a block is added.
add_limbs-value :
    (h t : Limbs) (buf : Bytes)
    → Carried h
    → Loaded buf t
    → Accumulator (add_limbs h t) × (value (add_limbs h t) ≡ value h + value t)
add_limbs-value h t buf c l =
    let c0 = c.c0 in
    let c1 = c.c1 in
    let c2 = c.c2 in
    let c3 = c.c3 in
    let c4 = c.c4 in
    let t0 = l.t0 in
    let t1 = l.t1 in
    let t2 = l.t2 in
    let t3 = l.t3 in
    let t4 = l.t4 in
    (
      record {
        b0 = omega arith;
        b1 = omega arith;
        b2 = omega arith;
        b3 = omega arith;
        b4 = omega arith;
      },
      omega arith,
    )

pub add_block17-value :
    (ctx : Ctx) (block17 : Bytes)
    → Between ctx
    → IsBytes block17
    → get_or block17 16 0 ≤ 1
    → Between (add_block17 ctx block17)
      × (value (add_block17 ctx block17).h % (2 ^ 130 - 5)
          ≡ (value ctx.h + number (gets 17 0 block17)) * value ctx.r % (2 ^ 130 - 5))
add_block17-value ctx block17 b bytes top =
    let t : Limbs = bytes_to_limbs block17 in
    let loaded = bytes_to_limbs-Loaded block17 bytes top in
    let (small, sum) = add_limbs-value ctx.h t block17 b.carried loaded in
    let (carried, (k, product)) = mulmod-value (add_limbs ctx.h t) ctx.r small b.key in
    let same : mulmod (add_limbs ctx.h t) ctx.r ctx.s
        ≡ mulmod (add_limbs ctx.h t) ctx.r (fives ctx.r) =
      ap (mulmod (add_limbs ctx.h t) ctx.r) b.fives_of in
    rw same (
      record { fives_of = b.fives_of; key = b.key; carried = carried },
      same_remainder (value (add_limbs ctx.h t) * value ctx.r)
            (value (mulmod (add_limbs ctx.h t) ctx.r (fives ctx.r))) k product
          ∙ ap (λ (v : ℕ). v * value ctx.r % (2 ^ 130 - 5))
              (sum ∙ ap (λ (v : ℕ). value ctx.h + v) loaded.whole),
    )

-- A full block with a one behind it is added to the accumulator, and the sum is multiplied with the
-- key modulo 2 ^ 130 - 5, as RFC 8439 has it; the limbs stay in the bounds that the next block wants.
pub process_full_block-value :
    (ctx : Ctx) (block : Bytes)
    → Between ctx
    → IsBytes block
    → length block ≡ 16
    → Between (process_full_block ctx block)
      × (value (process_full_block ctx block).h % (2 ^ 130 - 5)
          ≡ (value ctx.h + number (block ++ 1 ∷ [])) * value ctx.r % (2 ^ 130 - 5))
unfolding process_full_block
process_full_block-value ctx block b bytes size =
    let buf : Bytes = block ++ 1 ∷ [] in
    let total : length buf ≡ 17 = length-append block (1 ∷ []) ∙ omega arith in
    let (next, step) =
      add_block17-value ctx buf b (IsBytes-append block (1 ∷ []) bytes (omega arith, tt))
        (omega (arith, get_or_behind block (1 ∷ []) 0 16 0 (omega arith))) in
    let shown : gets 17 0 buf ≡ buf =
      sym (take-eq-gets 17 buf (omega arith)) ∙ (take_short 17 buf (omega arith)).0 in
    (next, step ∙ ap (λ (v : Bytes). (value ctx.h + number v) * value ctx.r % (2 ^ 130 - 5)) shown)
