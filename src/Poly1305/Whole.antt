-- ===== src/Poly1305/Whole.antt =====
-- `nd_poly1305_mac` against the algorithm of RFC 8439, 2.5.1, on numbers without a bound.
use nano_dtls.Base.{
  ℕ, zero, suc, ◌+◌, ◌-◌, ◌*◌, ◌%◌, ◌/◌, ◌^◌, ◌<◌, ◌≡◌, refl, ap, sym, ◌∙◌, arith, true, false, ltb,
  leb, ◌==◌, [], ◌∷◌, ◌++◌, Bytes, IsBytes, IsBytes-take, IsBytes-drop, length, length-take,
  length-drop, gets, take, drop, slice, take-eq-gets, take_short, if◌then◌else◌, Bool-cases, inl,
  inr,
}
use nano_dtls.Poly1305.{Ctx, clamp_r, process_full_block, init, update_loop, update, poly1305_mac}
use nano_dtls.Poly1305.Multiply.{value}
use nano_dtls.Poly1305.Load.{number}
use nano_dtls.Poly1305.Begin.{init-Between}
use nano_dtls.Poly1305.Mac.{Between, process_full_block-value}
use nano_dtls.Poly1305.Reduce.{same_remainder}
use nano_dtls.Poly1305.Final.{absorbed, final-number}

-- The loop of RFC 8439: every 16 bytes, the last perhaps fewer, with a one behind them.
abbrev pub evaluate : ℕ → ℕ → ℕ → Bytes → ℕ
evaluate zero r acc msg = acc
evaluate (suc fuel) r acc msg =
    let rest =
      evaluate fuel r ((acc + number (take 16 msg ++ 1 ∷ [])) * r % (2 ^ 130 - 5)) (drop 16 msg) in
    if length msg == 0 then acc else rest

multiplied :
    (v acc n r : ℕ)
    → v % (2 ^ 130 - 5) ≡ acc
    → (v + n) * r % (2 ^ 130 - 5) ≡ (acc + n) * r % (2 ^ 130 - 5)
multiplied v acc n r e =
    let k : ℕ = v / (2 ^ 130 - 5) in
    let split : v ≡ acc + k * (2 ^ 130 - 5) = omega arith in
    sym (
      same_remainder ((v + n) * r) ((acc + n) * r) (k * r)
        (ap (λ (t : ℕ). (t + n) * r) split ∙ spread acc k n r))
  where
    spread :
        (acc k n r : ℕ) → (acc + k * (2 ^ 130 - 5) + n) * r ≡ (acc + n) * r + k * r * (2 ^ 130 - 5)
    spread acc k n r = omega arith

-- A context that has taken in what the algorithm makes `acc` of.
record Absorbs (pad : Bytes) (acc : ℕ) (ctx : Ctx) : Type 0 where
  between : Between ctx
  bytes : IsBytes ctx.buf
  size : length ctx.buf < 16
  same_pad : ctx.pad ≡ pad
  sum : absorbed ctx % (2 ^ 130 - 5) ≡ acc

evaluate_nothing : (fuel r acc : ℕ) → evaluate fuel r acc [] ≡ acc
evaluate_nothing zero r acc = refl
evaluate_nothing (suc fuel) r acc = refl

kept :
    (ctx : Ctx) (acc : ℕ)
    → Between ctx
    → ctx.buf ≡ []
    → value ctx.h % (2 ^ 130 - 5) ≡ acc
    → Absorbs ctx.pad acc ctx
kept ctx acc b e h = record {
  between = b;
  bytes = rw e tt;
  size = rw e (omega arith);
  same_pad = refl;
  sum = rw e h;
}

begun_block :
    (ctx : Ctx) (acc : ℕ) (msg : Bytes)
    → Between ctx
    → IsBytes msg
    → length msg < 16
    → ltb 0 (length msg) ≡ true
    → value ctx.h % (2 ^ 130 - 5) ≡ acc
    → Absorbs ctx.pad
        ((acc + number (msg ++ 1 ∷ [])) * value ctx.r % (2 ^ 130 - 5))
        (record ctx { buf = msg })
begun_block ctx acc msg b bytes size some_left h = record {
  between = record { fives_of = b.fives_of; key = b.key; carried = b.carried };
  bytes = bytes;
  size = size;
  same_pad = refl;
  sum = rw some_left (multiplied (value ctx.h) acc (number (msg ++ 1 ∷ [])) (value ctx.r) h);
}

update_loop-Absorbs :
    (fuel : ℕ) (ctx : Ctx) (acc : ℕ) (msg : Bytes)
    → Between ctx
    → ctx.buf ≡ []
    → IsBytes msg
    → length msg < fuel
    → value ctx.h % (2 ^ 130 - 5) ≡ acc
    → Absorbs ctx.pad (evaluate fuel (value ctx.r) acc msg) (update_loop fuel ctx msg)
unfolding update_loop process_full_block
update_loop-Absorbs zero ctx acc msg b e bytes enough h = absurd (omega arith)
update_loop-Absorbs (suc fuel) ctx acc msg b e bytes enough h =
    elim (Bool-cases (leb 16 (length msg))) [
      | inl full ↦
          let left : (length msg == 0) ≡ false = ground (arith, full) in
          let (next, step) =
            process_full_block-value ctx (take 16 msg) b (IsBytes-take 16 msg bytes)
              (ground (arith, length-take 16 msg, full)) in
          rw (full, left)
            (update_loop-Absorbs fuel (process_full_block ctx (take 16 msg)) _ (drop 16 msg) next e
              (IsBytes-drop 16 msg bytes) (ground (arith, length-drop 16 msg, full))
              (step
                ∙ multiplied (value ctx.h) acc (number (take 16 msg ++ 1 ∷ [])) (value ctx.r) h))
      | inr short ↦ elim (Bool-cases (length msg == 0)) [
        | inl none ↦ rw (short, none) (kept ctx acc b e h)
        | inr left ↦
            let below : length msg < 16 = ground (arith, short) in
            let (all, nothing) = take_short 16 msg (omega arith) in
            rw (short, left, all, nothing, evaluate_nothing fuel (value ctx.r))
              (begun_block ctx acc msg b bytes below (ground (arith, left)) h)
      ]
    ]

-- For a key of 32 bytes and a message of any length, the tag is the little-endian number that RFC
-- 8439 computes on numbers without a bound: its loop modulo 2 ^ 130 - 5 with the first half of the key
-- under the masks of `clamp_r`, to which the second half is added modulo 2 ^ 128.
pub poly1305_mac-evaluate :
    (key msg : Bytes)
    → IsBytes key
    → length key ≡ 32
    → IsBytes msg
    → number (poly1305_mac key msg)
      ≡ (evaluate (suc (length msg)) (number (clamp_r (take 16 key))) 0 msg + number (drop 16 key))
        % 2 ^ 128
unfolding init update
poly1305_mac-evaluate key msg key_bytes size bytes =
    let (begins, r) = init-Between key key_bytes size in
    let a : Absorbs (slice key 16 16) (evaluate (suc (length msg)) (value (init key).r) 0 msg)
        (update (init key) msg) =
      update_loop-Absorbs (suc (length msg)) (init key) 0 msg begins refl bytes (omega arith)
        refl in
    let long : length (drop 16 key) ≡ 16 = omega (arith, length-drop 16 key) in
    let whole : take 16 (drop 16 key) ≡ drop 16 key =
      (take_short 16 (drop 16 key) (omega arith)).0 in
    let shown : gets 16 0 (take 16 (drop 16 key)) ≡ drop 16 key =
      ap (gets 16 0) whole ∙ sym (take-eq-gets 16 (drop 16 key) (omega arith)) ∙ whole in
    let pad_bytes : IsBytes (slice key 16 16) = IsBytes-take 16 _ (IsBytes-drop 16 key key_bytes) in
    final-number (update (init key) msg) a.between a.bytes a.size (rw a.same_pad pad_bytes)
    ∙ rw (a.sum, a.same_pad, r)
        (ap
          (λ (v : ℕ).
            (evaluate (suc (length msg)) (number (clamp_r (take 16 key))) 0 msg + v) % 2 ^ 128)
          (ap number shown))
