-- ===== src/Chacha20.antt =====
-- The stream cipher of src/crypto/chacha20.c. The arrays `key` and `nonce` of fixed size are lists;
-- a list that is shorter is a fault, since every block reads all of both.
pub mod Block
pub mod Stream
pub mod Rfc8439
pub mod Conforms
mod Tests
use nano_dtls.Base.{
  ℕ, zero, suc, ◌+◌, ◌-◌, ◌*◌, ◌&&◌, ◌++◌, List, [], ◌∷◌, bit_or, bit_xor, leb, if◌then◌else◌,
}
use nano_dtls.Base.{Bytes, length, get_or, take, drop, write_at, u8, u32, ◌<<<◌, ◌>>>◌}
use nano_dtls.Base.{Result, ok, fault, ◌>>=◌}

abbrev pub block_len : ℕ
block_len = 64

-- `load_le32(p + at)`
abbrev pub load_le32 : Bytes → ℕ → ℕ
load_le32 p at =
    bit_or
      (bit_or (bit_or (get_or p at 0) (get_or p (at + 1) 0 <<< 8)) (get_or p (at + 2) 0 <<< 16))
      (get_or p (at + 3) 0 <<< 24)

abbrev pub store_le32 : ℕ → Bytes
store_le32 x = u8 x ∷ u8 (x >>> 8) ∷ u8 (x >>> 16) ∷ u8 (x >>> 24) ∷ []

abbrev pub rotl32 : ℕ → ℕ → ℕ
rotl32 x n = bit_or (u32 (x <<< n)) (x >>> (32 - n))

-- The four values that `QR` works on.
pub record Quad : Type 0 where
  pub a : ℕ
  pub b : ℕ
  pub c : ℕ
  pub d : ℕ

-- `a += b; d ^= a; d = rotl32(d, n);`, and the same line on `c`, `d` and `b`.
abbrev pub add_ab : ℕ → Quad → Quad
add_ab n q = let a' = u32 (q.a + q.b) in record q { a = a'; d = rotl32 (bit_xor q.d a') n }

abbrev pub add_cd : ℕ → Quad → Quad
add_cd n q = let c' = u32 (q.c + q.d) in record q { c = c'; b = rotl32 (bit_xor q.b c') n }

-- The four lines of `QR`.
abbrev pub quad_round : Quad → Quad
quad_round q = add_cd 7 (add_ab 8 (add_cd 12 (add_ab 16 q)))

abbrev pub put_word : ℕ → ℕ → List ℕ → List ℕ
put_word i v x = write_at x i (v ∷ [])

-- `QR(x[i], x[j], x[k], x[l])`
unfoldable pub quarter : ℕ → ℕ → ℕ → ℕ → List ℕ → List ℕ
quarter i j k l x =
    let q =
      quad_round
        (record { a = get_or x i 0; b = get_or x j 0; c = get_or x k 0; d = get_or x l 0 }) in
    put_word l q.d (put_word k q.c (put_word j q.b (put_word i q.a x)))

-- The body of the loop over `round`.
unfoldable pub double_round : List ℕ → List ℕ
double_round x = quarter 3 4 9 14 (
    quarter 2 7 8 13 (
      quarter 1 6 11 12 (
        quarter 0 5 10 15
          (quarter 3 7 11 15 (quarter 2 6 10 14 (quarter 1 5 9 13 (quarter 0 4 8 12 x)))))))

unfoldable pub rounds : ℕ → List ℕ → List ℕ
rounds zero x = x
rounds (suc left) x = rounds left (double_round x)

-- `s`
abbrev pub initial : Bytes → Bytes → ℕ → List ℕ
initial key nonce counter =
    0x61707865
    ∷ 0x3320646e
    ∷ 0x79622d32
    ∷ 0x6b206574
    ∷ load_le32 key 0
    ∷ load_le32 key 4
    ∷ load_le32 key 8
    ∷ load_le32 key 12
    ∷ load_le32 key 16
    ∷ load_le32 key 20
    ∷ load_le32 key 24
    ∷ load_le32 key 28
    ∷ counter
    ∷ load_le32 nonce 0
    ∷ load_le32 nonce 4
    ∷ load_le32 nonce 8
    ∷ []

-- The last loop of the block function.
abbrev pub store_sums : List ℕ → List ℕ → Bytes
store_sums [] s = []
store_sums (x ∷ xs) [] = []
store_sums (x ∷ xs) (s ∷ ss) = store_le32 (u32 (x + s)) ++ store_sums xs ss

unfoldable pub block : Bytes → Bytes → ℕ → Result Bytes
block key nonce counter =
    let s = initial key nonce counter in
    if leb 32 (length key) && leb 12 (length nonce) then ok (store_sums (rounds 10 s) s) else fault

-- `out[i] = in[i] ^ block[i]` for the bytes of the input.
abbrev pub xor_with : Bytes → Bytes → Bytes
xor_with [] ys = []
xor_with (x ∷ xs) [] = []
xor_with (x ∷ xs) (y ∷ ys) = u8 (bit_xor x y) ∷ xor_with xs ys

-- The loop on what is left of the input. A round takes at least one byte, so that the length of
-- the input is fuel enough.
unfoldable pub xor_loop : ℕ → Bytes → Bytes → ℕ → Bytes → Result Bytes
xor_loop fuel key nonce counter [] = ok []
xor_loop zero key nonce counter (x ∷ xs) = fault
xor_loop (suc fuel) key nonce counter (x ∷ xs) = do
  b ← block key nonce counter
  out ← xor_loop fuel key nonce (u32 (counter + 1)) (drop block_len (x ∷ xs))
  ok (xor_with (take block_len (x ∷ xs)) b ++ out)

unfoldable pub chacha20_xor : Bytes → Bytes → ℕ → Bytes → Result Bytes
chacha20_xor key nonce counter input = xor_loop (length input) key nonce counter input
