-- ===== src/Poly1305/Final.antt =====
-- The end of the MAC: the last block, the reduction and the packing together.
use nano_dtls.Base.{
  ℕ, zero, suc, ◌+◌, ◌-◌, ◌*◌, ◌%◌, ◌^◌, ◌≤◌, ◌<◌, ◌≡◌, refl, ap, sym, ◌∙◌, arith, Bool, true,
  false, ltb, [], ◌∷◌, ◌++◌, Bytes, IsBytes, IsBytes-append, length, length-append,
  length-replicate, get_or, get_or_behind, get_or-replicate, gets, replicate, take-eq-gets,
  take_short, if◌then◌else◌,
}
use nano_dtls.Poly1305.{Ctx, add_block17, full_carry, reduce_once, last_block, final}
use nano_dtls.Poly1305.Multiply.{value}
use nano_dtls.Poly1305.Load.{number}
use nano_dtls.Poly1305.Mac.{Between, add_block17-value}
use nano_dtls.Poly1305.Reduce.{reduce_once-full_carry}
use nano_dtls.Poly1305.Pack.{pack-number}

-- The bytes of the buffer, a one and zeros.
abbrev padded : Bytes → Bytes
padded buf = buf ++ (1 ∷ replicate (16 - length buf) 0)

number-zeros : (n : ℕ) → number (replicate n 0) ≡ 0
number-zeros zero = refl
number-zeros (suc n) = ap (λ (v : ℕ). 0 + 256 * v) (number-zeros n)

number-padding : (n : ℕ) (xs : Bytes) → number (xs ++ (1 ∷ replicate n 0)) ≡ number (xs ++ 1 ∷ [])
number-padding n [] = ap (λ (v : ℕ). 1 + 256 * v) (number-zeros n)
number-padding n (x ∷ xs) = ap (λ (v : ℕ). x + 256 * v) (number-padding n xs)

IsBytes-zeros : (n : ℕ) → IsBytes (replicate n 0)
IsBytes-zeros zero = tt
IsBytes-zeros (suc n) = (omega arith, IsBytes-zeros n)

last_of_padding : (n : ℕ) → get_or (1 ∷ replicate n 0) n 0 ≤ 1
last_of_padding zero = omega arith
last_of_padding (suc n) = omega (arith, get_or-replicate (suc n) 0 n (omega arith))

length-padded : (buf : Bytes) → length buf < 16 → length (padded buf) ≡ 17
length-padded buf h = omega (
  arith,
  length-append buf (1 ∷ replicate (16 - length buf) 0),
  length-replicate {A = ℕ} (16 - length buf) 0,
)

-- What the accumulator holds once the buffer has been added.
abbrev pub absorbed : Ctx → ℕ
absorbed ctx =
    if ltb 0 (length ctx.buf)
    then (value ctx.h + number (ctx.buf ++ 1 ∷ [])) * value ctx.r
    else value ctx.h

last_block-value :
    (ctx : Ctx)
    → Between ctx
    → IsBytes ctx.buf
    → length ctx.buf < 16
    → Between (last_block ctx)
      × (value (last_block ctx).h % (2 ^ 130 - 5) ≡ absorbed ctx % (2 ^ 130 - 5))
last_block-value ctx b bytes size = of_test (ltb 0 (length ctx.buf))
  where
    added :
        Between (add_block17 ctx (padded ctx.buf))
        × (value (add_block17 ctx (padded ctx.buf)).h % (2 ^ 130 - 5)
            ≡ (value ctx.h + number (ctx.buf ++ 1 ∷ [])) * value ctx.r % (2 ^ 130 - 5))
    added =
        let shown : gets 17 0 (padded ctx.buf) ≡ padded ctx.buf =
          sym (take-eq-gets 17 (padded ctx.buf) (omega (arith, length-padded ctx.buf size)))
          ∙ (take_short 17 (padded ctx.buf) (omega (arith, length-padded ctx.buf size))).0 in
        let (next, step) =
          add_block17-value ctx (padded ctx.buf) b
            (IsBytes-append ctx.buf _ bytes (omega arith, IsBytes-zeros (16 - length ctx.buf)))
            (omega (
              arith,
              get_or_behind ctx.buf (1 ∷ replicate (16 - length ctx.buf) 0) 0 16
                  (16 - length ctx.buf) (omega arith),
              last_of_padding (16 - length ctx.buf),
            )) in
        (
          next,
          step
              ∙ ap (λ (v : ℕ). (value ctx.h + v) * value ctx.r % (2 ^ 130 - 5))
                  (ap number shown ∙ number-padding (16 - length ctx.buf) ctx.buf),
        )

    of_test :
        (test : Bool)
        → Between (if test then add_block17 ctx (padded ctx.buf) else ctx)
          × (value (if test then add_block17 ctx (padded ctx.buf) else ctx).h % (2 ^ 130 - 5)
              ≡ (if test
                  then (value ctx.h + number (ctx.buf ++ 1 ∷ [])) * value ctx.r
                  else value ctx.h)
                % (2 ^ 130 - 5))
    of_test true = added
    of_test false = (b, refl)

-- The tag is the number that RFC 8439 asks for. From a context between two blocks, with fewer than
-- 16 bytes in the buffer, they are added with a one behind them, if there are any, and multiplied
-- with the key; the remainder modulo 2 ^ 130 - 5 and the second half of the key are added modulo
-- 2 ^ 128.
pub final-number :
    (ctx : Ctx)
    → Between ctx
    → IsBytes ctx.buf
    → length ctx.buf < 16
    → IsBytes ctx.pad
    → number (final ctx) ≡ (absorbed ctx % (2 ^ 130 - 5) + number (gets 16 0 ctx.pad)) % 2 ^ 128
unfolding final
final-number ctx b bytes size pad =
    let (next, step) = last_block-value ctx b bytes size in
    let (small, remainder) = reduce_once-full_carry (last_block ctx).h next.carried in
    pack-number (reduce_once (full_carry (last_block ctx).h)) ctx.pad small pad
    ∙ ap (λ (v : ℕ). (v + number (gets 16 0 ctx.pad)) % 2 ^ 128) (remainder ∙ step)
