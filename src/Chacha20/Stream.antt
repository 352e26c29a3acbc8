-- ===== src/Chacha20/Stream.antt =====
-- `nd_chacha20_xor` undoes itself.
use mathlib.Core.List.{append-nil}
use nano_dtls.Base.{take_short, take-append_drop, nil_of_length}
use nano_dtls.Base.{
  ℕ, zero, suc, ◌+◌, ◌-◌, ◌≤◌, ◌<◌, ◌≡◌, refl, sym, ap, ◌∙◌, arith, ◌⊎◌, inl, inr, [], ◌∷◌, ◌++◌,
  bit_xor, bit_xor_twice, bit_xor-lt, u8, u32,
}
use nano_dtls.Base.{
  Bytes, IsBytes, IsBytes-take, IsBytes-drop, length, take, drop, length-take, length-drop,
  length-append, take-append, drop_behind, Result, ok, bind-ok, ok-injective, ◌>>=◌,
}
use mathlib.Core.Path.{ap₂}
use Prim.Native.Nat.{min}
use nano_dtls.Chacha20.Block.{block-ok, block-returns}
use nano_dtls.Chacha20.{block_len, block, xor_with, xor_loop, chacha20_xor}

length-xor_with : (xs ys : Bytes) → length xs ≤ length ys → length (xor_with xs ys) ≡ length xs
length-xor_with [] ys h = refl
length-xor_with (x ∷ xs) [] h = absurd (omega arith)
length-xor_with (x ∷ xs) (y ∷ ys) h = ap suc (length-xor_with xs ys (omega arith))

xor_with_twice :
    (xs ys : Bytes)
    → IsBytes xs
    → IsBytes ys
    → length xs ≤ length ys
    → xor_with (xor_with xs ys) ys ≡ xs
xor_with_twice [] ys hx hy h = refl
xor_with_twice (x ∷ xs) [] hx hy h = absurd (omega arith)
xor_with_twice (x ∷ xs) (y ∷ ys) hx hy h =
    ap₂ ◌∷◌
      (ap (λ t. u8 (bit_xor t y)) (small (bit_xor x y) (bit_xor-lt 8 x y hx.0 hy.0))
        ∙ ap u8 (bit_xor_twice x y)
        ∙ small x hx.0)
      (xor_with_twice xs ys hx.1 hy.1 (omega arith))
  where
    small : (v : ℕ) → v < 256 → u8 v ≡ v
    small v h = omega arith

-- Where a block and what follows it are cut apart.
cut :
    (front rest : Bytes)
    → (length front ≡ block_len) ⊎ ((length front ≤ block_len) × (rest ≡ []))
    → (take block_len (front ++ rest) ≡ front) × (drop block_len (front ++ rest) ≡ rest)
cut front rest (inl whole) = (
  ap (λ n. take n (front ++ rest)) (sym whole) ∙ take-append front rest,
  drop_behind front rest block_len 0 (omega arith),
)
cut front rest (inr (short, last)) = rw (last, append-nil front) (take_short block_len front short)

-- A round on the bytes of its block and on what follows them.
abbrev round_on : ℕ → Bytes → Bytes → ℕ → Bytes → Bytes → Result Bytes
round_on fuel key nonce counter front rest = do
  b ← block key nonce counter
  out ← xor_loop fuel key nonce (u32 (counter + 1)) rest
  ok (xor_with front b ++ out)

xor_loop-round :
    (fuel : ℕ) (key nonce : Bytes) (counter : ℕ) (xs : Bytes)
    → 0 < length xs
    → xor_loop (suc fuel) key nonce counter xs
      ≡ round_on fuel key nonce counter (take block_len xs) (drop block_len xs)
unfolding xor_loop
xor_loop-round fuel key nonce counter [] h = absurd (omega arith)
xor_loop-round fuel key nonce counter (x ∷ xs) h = refl

-- What a round has done when it returns.
round_on-ok :
    (fuel : ℕ) (key nonce : Bytes) (counter : ℕ) (front rest out : Bytes)
    → round_on fuel key nonce counter front rest ≡ ok out
    → (b : Bytes) × (block key nonce counter ≡ ok b)
      × ((out' : Bytes) × (xor_loop fuel key nonce (u32 (counter + 1)) rest ≡ ok out')
          × (xor_with front b ++ out' ≡ out))
round_on-ok fuel key nonce counter front rest out h =
    let (b, made, h) =
      bind-ok (block key nonce counter)
        (λ b.
          xor_loop fuel key nonce (u32 (counter + 1)) rest >>= λ out. ok (xor_with front b ++ out))
        out h in
    let (out', went, h) =
      bind-ok (xor_loop fuel key nonce (u32 (counter + 1)) rest)
        (λ out. ok (xor_with front b ++ out)) out h in
    (b, made, (out', went, ok-injective (xor_with front b ++ out') out h))

cut_at :
    (front rest : Bytes) (n : ℕ)
    → (block_len ≤ n) ⊎ (n < block_len)
    → length front ≡ min block_len n
    → length rest ≡ n - block_len
    → (take block_len (front ++ rest) ≡ front) × (drop block_len (front ++ rest) ≡ rest)
cut_at front rest n (inl whole) e l = cut front rest (inl (omega arith))
cut_at front rest n (inr short) e l =
    cut front rest (inr (omega arith, nil_of_length rest (omega arith)))

xor_loop-twice :
    (fuel : ℕ) (key nonce : Bytes) (counter : ℕ) (xs out : Bytes)
    → IsBytes xs
    → length xs ≤ fuel
    → xor_loop fuel key nonce counter xs ≡ ok out
    → (length out ≡ length xs) × (xor_loop fuel key nonce counter out ≡ ok xs)
unfolding xor_loop
xor_loop-twice fuel key nonce counter [] out bytes enough h =
    let nothing : [] ≡ out = ok-injective [] out h in rw (sym nothing) (refl, refl)
xor_loop-twice zero key nonce counter (x ∷ xs) out bytes enough h = absurd (omega arith)
xor_loop-twice (suc fuel) key nonce counter (x ∷ xs) out bytes enough h =
    let zs : Bytes = x ∷ xs in
    let front : Bytes = take block_len zs in
    let tail : Bytes = drop block_len zs in
    let (b, made, (rest, went, joined)) = round_on-ok fuel key nonce counter front tail out h in
    let (size, noise) = block-ok key nonce counter b made in
    let (rest_size, back) =
      xor_loop-twice fuel key nonce (u32 (counter + 1)) tail rest (IsBytes-drop block_len zs bytes)
        (omega (arith, length-drop block_len zs)) went in
    let front_size : length (xor_with front b) ≡ length front =
      length-xor_with front b (omega (arith, length-take block_len zs)) in
    let (first, second) =
      cut_at (xor_with front b) rest (length zs) (omega arith)
        (front_size ∙ length-take block_len zs) (rest_size ∙ length-drop block_len zs) in
    let total : length (xor_with front b ++ rest) ≡ length zs = omega (
      arith,
      length-append (xor_with front b) rest,
      length-take block_len zs,
      length-drop block_len zs,
    ) in
    rw (sym joined) (
      total,
      xor_loop-round fuel key nonce counter (xor_with front b ++ rest) (omega arith)
          ∙ (λ i. round_on fuel key nonce counter (first i) (second i))
          ∙ (λ i. made i >>= λ c. back i >>= λ o. ok (xor_with (xor_with front b) c ++ o))
          ∙ ap ok (
              ap (λ t. t ++ tail)
                (xor_with_twice front b (IsBytes-take block_len zs bytes) noise
                  (omega (arith, length-take block_len zs)))
              ∙ take-append_drop block_len zs),
    )

xor_loop-returns :
    (fuel : ℕ) (key nonce : Bytes) (counter : ℕ) (xs : Bytes)
    → 32 ≤ length key
    → 12 ≤ length nonce
    → length xs ≤ fuel
    → (out : Bytes) × (xor_loop fuel key nonce counter xs ≡ ok out)
unfolding xor_loop
xor_loop-returns fuel key nonce counter [] hk hn enough = ([], refl)
xor_loop-returns zero key nonce counter (x ∷ xs) hk hn enough = absurd (omega arith)
xor_loop-returns (suc fuel) key nonce counter (x ∷ xs) hk hn enough =
    let (b, made) = block-returns key nonce counter hk hn in
    let zs : Bytes = x ∷ xs in
    let (out, went) =
      xor_loop-returns fuel key nonce (u32 (counter + 1)) (drop block_len zs) hk hn
        (omega (arith, length-drop block_len zs)) in
    (
      xor_with (take block_len zs) b ++ out,
      λ i. made i >>= λ c. went i >>= λ o. ok (xor_with (take block_len zs) c ++ o),
    )

-- With a key of 32 bytes and a nonce of 12 the cipher returns, on an input of any length. It keeps
-- the length, and a second pass with the same key, nonce and counter gives the input back.
pub chacha20_xor_twice :
    (key nonce : Bytes) (counter : ℕ) (input : Bytes)
    → 32 ≤ length key
    → 12 ≤ length nonce
    → IsBytes input
    → (out : Bytes) × (chacha20_xor key nonce counter input ≡ ok out)
      × (length out ≡ length input)
      × (chacha20_xor key nonce counter out ≡ ok input)
unfolding chacha20_xor
chacha20_xor_twice key nonce counter input hk hn bytes =
    let (out, went) = xor_loop-returns (length input) key nonce counter input hk hn (omega arith) in
    let (size, back) =
      xor_loop-twice (length input) key nonce counter input out bytes (omega arith) went in
    (out, went, size, rw size back)

xor_loop-length :
    (fuel : ℕ) (key nonce : Bytes) (counter : ℕ) (xs out : Bytes)
    → xor_loop fuel key nonce counter xs ≡ ok out
    → length out ≡ length xs
unfolding xor_loop
xor_loop-length fuel key nonce counter [] out h = ap length (sym (ok-injective [] out h))
xor_loop-length zero key nonce counter (x ∷ xs) out h = absurd (ground (arith, h))
xor_loop-length (suc fuel) key nonce counter (x ∷ xs) out h =
    let zs : Bytes = x ∷ xs in
    let front : Bytes = take block_len zs in
    let tail : Bytes = drop block_len zs in
    let (b, made, (rest, went, joined)) = round_on-ok fuel key nonce counter front tail out h in
    let (size, noise) = block-ok key nonce counter b made in
    let rest_size : length rest ≡ length tail =
      xor_loop-length fuel key nonce (u32 (counter + 1)) tail rest went in
    ap length (sym joined)
    ∙ omega (
      arith,
      length-append (xor_with front b) rest,
      length-xor_with front b (omega (arith, length-take block_len zs)),
      length-take block_len zs,
      length-drop block_len zs,
    )

-- What is returned is as long as the input.
pub chacha20_xor-length :
    (key nonce : Bytes) (counter : ℕ) (input out : Bytes)
    → chacha20_xor key nonce counter input ≡ ok out
    → length out ≡ length input
unfolding chacha20_xor
chacha20_xor-length key nonce counter input out h =
    xor_loop-length (length input) key nonce counter input out h

pub chacha20_xor-returns :
    (key nonce : Bytes) (counter : ℕ) (input : Bytes)
    → 32 ≤ length key
    → 12 ≤ length nonce
    → (out : Bytes) × (chacha20_xor key nonce counter input ≡ ok out)
unfolding chacha20_xor
chacha20_xor-returns key nonce counter input hk hn =
    xor_loop-returns (length input) key nonce counter input hk hn (omega arith)
