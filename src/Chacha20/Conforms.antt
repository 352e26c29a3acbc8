-- ===== src/Chacha20/Conforms.antt =====
-- src/crypto/chacha20.c is the cipher of RFC 8439.
use mathlib.Core.Path.{ap₂}
use nano_dtls.Base.{
  ℕ, zero, suc, ◌+◌, ◌*◌, ◌/◌, ◌%◌, ◌≤◌, ◌<◌, ◌≡◌, ◌^◌, refl, sym, ap, ◌∙◌, arith, ◌⊎◌, inl, inr,
  List, [], ◌∷◌, ◌++◌, bit_xor, bit_xor-lt, u8, u32,
}
use nano_dtls.Base.{
  Bytes, IsBytes, IsBytes-take, IsBytes-drop, length, get_or, take, drop, length-take, length-drop,
  take-append_drop, ok, bind-returns, byte_bound,
}
use nano_dtls.Chacha20.{
  block_len, put_word, quarter, double_round, rounds, initial, store_sums, block, xor_with,
  xor_loop, chacha20_xor,
}
use nano_dtls.Chacha20.Block.{block-ok}
use nano_dtls.Poly1305.Pack.{load_le32-sum}
use nano_dtls.Chacha20.Rfc8439.{
  replaced, on_state, schedule, in_order, inner_blocks, state, serialized, block_of, encrypted,
}

put_word-replaced : (i v : ℕ) (x : List ℕ) → put_word i v x ≡ replaced i v x
put_word-replaced zero v [] = refl
put_word-replaced zero v (x ∷ []) = refl
put_word-replaced zero v (x ∷ y ∷ xs) = refl
put_word-replaced (suc i) v [] = refl
put_word-replaced (suc i) v (x ∷ xs) = ap (λ t. x ∷ t) (put_word-replaced i v xs)

quarter-on_state : (i j k l : ℕ) (x : List ℕ) → quarter i j k l x ≡ on_state (i, j, k, l) x
unfolding quarter
quarter-on_state i j k l x = simp put_word-replaced refl

double_round-in_order : (x : List ℕ) → double_round x ≡ in_order schedule x
unfolding double_round
double_round-in_order x = simp quarter-on_state refl

rounds-inner_blocks : (n : ℕ) (x : List ℕ) → rounds n x ≡ inner_blocks n x
unfolding rounds
rounds-inner_blocks zero x = refl
rounds-inner_blocks (suc n) x =
    ap (rounds n) (double_round-in_order x) ∙ rounds-inner_blocks n (in_order schedule x)

store_sums-serialized : (xs ss : List ℕ) → store_sums xs ss ≡ serialized xs ss
store_sums-serialized [] ss = refl
store_sums-serialized (x ∷ xs) [] = refl
store_sums-serialized (x ∷ xs) (s ∷ ss) =
    ap
      (λ t.
        (u32 (x + s) % 256)
        ∷ (u32 (x + s) / 2 ^ 8 % 256)
        ∷ (u32 (x + s) / 2 ^ 16 % 256)
        ∷ (u32 (x + s) / 2 ^ 24 % 256)
        ∷ t)
      (store_sums-serialized xs ss)

initial-state :
    (key nonce : Bytes) (counter : ℕ)
    → IsBytes key
    → IsBytes nonce
    → initial key nonce counter ≡ state key counter nonce
initial-state key nonce counter hk hn = λ i.
    0x61707865
    ∷ 0x3320646e
    ∷ 0x79622d32
    ∷ 0x6b206574
    ∷ load_le32-sum key 0 hk i
    ∷ load_le32-sum key 4 hk i
    ∷ load_le32-sum key 8 hk i
    ∷ load_le32-sum key 12 hk i
    ∷ load_le32-sum key 16 hk i
    ∷ load_le32-sum key 20 hk i
    ∷ load_le32-sum key 24 hk i
    ∷ load_le32-sum key 28 hk i
    ∷ counter
    ∷ load_le32-sum nonce 0 hn i
    ∷ load_le32-sum nonce 4 hn i
    ∷ load_le32-sum nonce 8 hn i
    ∷ []

block-block_of :
    (key nonce : Bytes) (counter : ℕ)
    → IsBytes key
    → IsBytes nonce
    → length key ≡ 32
    → length nonce ≡ 12
    → block key nonce counter ≡ ok (block_of key counter nonce)
unfolding block
block-block_of key nonce counter hk hn key_size nonce_size =
    let s : List ℕ = initial key nonce counter in
    let made : block key nonce counter ≡ ok (store_sums (rounds 10 s) s) =
      ground (arith, key_size, nonce_size) in
    made
    ∙ ap ok (
        store_sums-serialized (rounds 10 s) s
        ∙ ap (λ t. serialized t s) (rounds-inner_blocks 10 s)
        ∙ ap (λ t. serialized (inner_blocks 10 t) t) (initial-state key nonce counter hk hn))

drop-get_or : (k : ℕ) (xs : Bytes) → k < length xs → drop k xs ≡ get_or xs k 0 ∷ drop (suc k) xs
drop-get_or k [] h = absurd (omega arith)
drop-get_or zero (x ∷ xs) h = refl
drop-get_or (suc k) (x ∷ xs) h = drop-get_or k xs (omega arith)

module _ (key nonce : Bytes) (counter : ℕ) where
  encrypted-append :
      (j : ℕ) (xs ys : Bytes)
      → encrypted key nonce counter j (xs ++ ys)
        ≡ encrypted key nonce counter j xs ++ encrypted key nonce counter (j + length xs) ys
  encrypted-append j [] ys = ap (λ k. encrypted key nonce counter k ys) (omega arith)
  encrypted-append j (x ∷ xs) ys = ap₂ ◌∷◌ refl (
      encrypted-append (j + 1) xs ys
      ∙ ap (λ k. encrypted key nonce counter (j + 1) xs ++ encrypted key nonce counter k ys)
          (omega arith))

  -- Inside a block, from its byte `k` on.
  xor_with-encrypted :
      (q k : ℕ) (xs b : Bytes)
      → b ≡ block_of key ((counter + q) % 2 ^ 32) nonce
      → length b ≡ 64
      → IsBytes b
      → IsBytes xs
      → k + length xs ≤ 64
      → xor_with xs (drop k b) ≡ encrypted key nonce counter (q * 64 + k) xs
  xor_with-encrypted q k [] b made size noise bytes room = refl
  xor_with-encrypted q k (x ∷ xs) b made size noise bytes room =
      let stream : ℕ = get_or b k 0 in
      let j : ℕ = q * 64 + k in
      let here : j / 64 ≡ q = omega arith in
      let inside : j % 64 ≡ k = omega arith in
      let small : bit_xor x stream < 256 = bit_xor-lt 8 x stream bytes.0 (byte_bound b k noise) in
      let same : stream ≡ get_or (block_of key ((counter + j / 64) % 2 ^ 32) nonce) (j % 64) 0 =
        ap (λ t. get_or t k 0) made
        ∙ (λ i. get_or (block_of key ((counter + sym here i) % 2 ^ 32) nonce) (sym inside i) 0) in
      ap (xor_with (x ∷ xs)) (drop-get_or k b (omega arith))
      ∙ ap₂ ◌∷◌ (cut (bit_xor x stream) small ∙ ap (bit_xor x) same) (
          xor_with-encrypted q (suc k) xs b made size noise bytes.1 (omega arith)
          ∙ ap (λ t. encrypted key nonce counter t xs) (omega arith))
    where
      cut : (n : ℕ) → n < 256 → u8 n ≡ n
      cut n h = omega arith

  module _ (hk : IsBytes key) (hn : IsBytes nonce) (key_size : length key ≡ 32)
      (nonce_size : length nonce ≡ 12) where
    xor_loop-encrypted :
        (fuel q : ℕ) (xs : Bytes)
        → IsBytes xs
        → length xs ≤ fuel
        → xor_loop fuel key nonce ((counter + q) % 2 ^ 32) xs
          ≡ ok (encrypted key nonce counter (q * 64) xs)
    unfolding xor_loop
    xor_loop-encrypted fuel q [] bytes enough = refl
    xor_loop-encrypted zero q (x ∷ xs) bytes enough = absurd (omega arith)
    xor_loop-encrypted (suc fuel) q (x ∷ xs) bytes enough =
        let c : ℕ = (counter + q) % 2 ^ 32 in
        let zs : Bytes = x ∷ xs in
        let front : Bytes = take block_len zs in
        let tail : Bytes = drop block_len zs in
        let b : Bytes = block_of key c nonce in
        let made : block key nonce c ≡ ok b =
          block-block_of key nonce c hk hn key_size nonce_size in
        let (size, noise) = block-ok key nonce c b made in
        let next : u32 (c + 1) ≡ (counter + (q + 1)) % 2 ^ 32 = omega arith in
        let rest =
          ap (λ n. xor_loop fuel key nonce n tail) next
          ∙ xor_loop-encrypted fuel (q + 1) tail (IsBytes-drop block_len zs bytes)
              (omega (arith, length-drop block_len zs)) in
        let start : q * 64 + 0 ≡ q * 64 = omega arith in
        let first : xor_with front b ≡ encrypted key nonce counter (q * 64) front =
          xor_with-encrypted q 0 front b refl size noise (IsBytes-take block_len zs bytes)
            (omega (arith, length-take block_len zs))
          ∙ ap (λ j. encrypted key nonce counter j front) start in
        let behind : encrypted key nonce counter ((q + 1) * 64) tail
            ≡ encrypted key nonce counter (q * 64 + length front) tail =
          last zs q in
        bind-returns _ made (
          bind-returns _ rest (
            ap ok (
              (λ i. first i ++ behind i)
              ∙ sym (encrypted-append (q * 64) front tail)
              ∙ ap (encrypted key nonce counter (q * 64)) (take-append_drop block_len zs))))
      where
        at_end :
            (n : ℕ) (ys : Bytes) (j k : ℕ)
            → (length ys ≡ 0) ⊎ (j ≡ k)
            → encrypted key nonce counter j ys ≡ encrypted key nonce counter k ys
        at_end n [] j k h = refl
        at_end n (y ∷ ys) j k (inl none) = absurd (omega arith)
        at_end n (y ∷ ys) j k (inr same) = ap (λ i. encrypted key nonce counter i (y ∷ ys)) same

        last :
            (zs : Bytes) (q : ℕ)
            → encrypted key nonce counter ((q + 1) * 64) (drop block_len zs)
              ≡ encrypted key nonce counter
                  (q * 64 + length (take block_len zs))
                  (drop block_len zs)
        last zs q =
            at_end 0 (drop block_len zs) ((q + 1) * 64) (q * 64 + length (take block_len zs))
              (omega (arith, length-take block_len zs, length-drop block_len zs))

    -- For a key of 32 bytes, a nonce of 12, a counter of 32 bits and bytes of any number, the code
    -- returns what RFC 8439 defines: every byte XORed with the byte of the key stream at its
    -- position, which comes from the block function with the counter of its block, modulo 2^32.
    pub chacha20_xor-rfc8439 :
        (input : Bytes)
        → counter < 2 ^ 32
        → IsBytes input
        → chacha20_xor key nonce counter input ≡ ok (encrypted key nonce counter 0 input)
    unfolding chacha20_xor
    chacha20_xor-rfc8439 input small bytes =
        ap (λ c. xor_loop (length input) key nonce c input) (omega arith)
        ∙ xor_loop-encrypted (length input) 0 input bytes (omega arith)
