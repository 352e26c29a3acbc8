-- ===== src/Chacha20/Block.antt =====
-- The size of a block of the cipher.
use nano_dtls.Base.{ℕ, zero, suc, ◌*◌, ◌≤◌, ◌≡◌, refl, ◌∙◌, arith, List, [], ◌∷◌}
use nano_dtls.Base.{Bytes, IsBytes, length, length-write_at, ok}
use nano_dtls.Chacha20.{
  block_len, put_word, quarter, double_round, rounds, initial, store_sums, block,
}

length-put_word : (i v : ℕ) (x : List ℕ) → length (put_word i v x) ≡ length x
length-put_word i v x = length-write_at x i (v ∷ [])

length-quarter : (i j k l : ℕ) (x : List ℕ) → length (quarter i j k l x) ≡ length x
unfolding quarter
length-quarter i j k l x = simp length-put_word refl

length-double_round : (x : List ℕ) → length (double_round x) ≡ length x
unfolding double_round
length-double_round x = simp length-quarter refl

length-rounds : (n : ℕ) (x : List ℕ) → length (rounds n x) ≡ length x
unfolding rounds
length-rounds zero x = refl
length-rounds (suc n) x = length-rounds n (double_round x) ∙ length-double_round x

length-store_sums :
    (xs ss : List ℕ) → length xs ≡ length ss → length (store_sums xs ss) ≡ 4 * length ss
length-store_sums [] [] h = refl
length-store_sums [] (s ∷ ss) h = absurd (omega arith)
length-store_sums (x ∷ xs) [] h = absurd (omega arith)
length-store_sums (x ∷ xs) (s ∷ ss) h = omega (arith, length-store_sums xs ss (omega arith))

store_sums-IsBytes : (xs ss : List ℕ) → IsBytes (store_sums xs ss)
store_sums-IsBytes [] ss = tt
store_sums-IsBytes (x ∷ xs) [] = tt
store_sums-IsBytes (x ∷ xs) (s ∷ ss) =
    (omega arith, (omega arith, (omega arith, (omega arith, store_sums-IsBytes xs ss))))

pub block-ok :
    (key nonce : Bytes) (counter : ℕ) (b : Bytes)
    → block key nonce counter ≡ ok b
    → (length b ≡ block_len) × IsBytes b
unfolding block
block-ok key nonce counter b h =
    let s : List ℕ = initial key nonce counter in
    let same : b ≡ store_sums (rounds 10 s) s = ground (arith, h) in
    rw same
      (length-store_sums (rounds 10 s) s (length-rounds 10 s), store_sums-IsBytes (rounds 10 s) s)

pub block-returns :
    (key nonce : Bytes) (counter : ℕ)
    → 32 ≤ length key
    → 12 ≤ length nonce
    → (b : Bytes) × (block key nonce counter ≡ ok b)
unfolding block
block-returns key nonce counter hk hn =
    let s : List ℕ = initial key nonce counter in (store_sums (rounds 10 s) s, ground arith)

-- A block that was made had a whole key and a whole nonce.
pub block-sized :
    (key nonce : Bytes) (counter : ℕ) (b : Bytes)
    → block key nonce counter ≡ ok b
    → (32 ≤ length key) × (12 ≤ length nonce)
unfolding block
block-sized key nonce counter b h = ground (arith, h)
