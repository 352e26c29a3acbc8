-- ===== src/Chacha20/Rfc8439.antt =====
-- ChaCha20 as RFC 8439 defines it in its section 2: the quarter round, the block function on the
-- columns and diagonals, and the key stream, byte by byte.
use nano_dtls.Base.{
  ℕ, zero, suc, ◌+◌, ◌-◌, ◌*◌, ◌/◌, ◌%◌, ◌^◌, List, [], ◌∷◌, ◌++◌, bit_or, bit_xor, Bytes, get_or,
}

-- `x <<< n`
abbrev rotated : ℕ → ℕ → ℕ
rotated x n = bit_or (x * 2 ^ n % 2 ^ 32) (x / 2 ^ (32 - n))

abbrev plus : ℕ → ℕ → ℕ
plus x y = (x + y) % 2 ^ 32

-- Section 2.1, line by line.
abbrev pub quarter_round : ℕ → ℕ → ℕ → ℕ → ℕ × ℕ × ℕ × ℕ
quarter_round a b c d =
    let a1 = plus a b in
    let d1 = rotated (bit_xor d a1) 16 in
    let c1 = plus c d1 in
    let b1 = rotated (bit_xor b c1) 12 in
    let a2 = plus a1 b1 in
    let d2 = rotated (bit_xor d1 a2) 8 in
    let c2 = plus c1 d2 in let b2 = rotated (bit_xor b1 c2) 7 in (a2, b2, c2, d2)

-- The word at an index is replaced.
abbrev pub replaced : ℕ → ℕ → List ℕ → List ℕ
replaced i v [] = []
replaced zero v (x ∷ xs) = v ∷ xs
replaced (suc i) v (x ∷ xs) = x ∷ replaced i v xs

-- Section 2.2, `QUARTERROUND(x, y, z, w)`.
abbrev pub on_state : ℕ × ℕ × ℕ × ℕ → List ℕ → List ℕ
on_state (x, y, z, w) s =
    let (a, b, c, d) = quarter_round (get_or s x 0) (get_or s y 0) (get_or s z 0) (get_or s w 0) in
    replaced w d (replaced z c (replaced y b (replaced x a s)))

-- The columns, and the diagonals.
abbrev pub schedule : List (ℕ × ℕ × ℕ × ℕ)
schedule =
    (0, 4, 8, 12)
    ∷ (1, 5, 9, 13)
    ∷ (2, 6, 10, 14)
    ∷ (3, 7, 11, 15)
    ∷ (0, 5, 10, 15)
    ∷ (1, 6, 11, 12)
    ∷ (2, 7, 8, 13)
    ∷ (3, 4, 9, 14)
    ∷ []

abbrev pub in_order : List (ℕ × ℕ × ℕ × ℕ) → List ℕ → List ℕ
in_order [] s = s
in_order (q ∷ qs) s = in_order qs (on_state q s)

-- Section 2.3, `inner_block`, `n` times.
abbrev pub inner_blocks : ℕ → List ℕ → List ℕ
inner_blocks zero s = s
inner_blocks (suc n) s = inner_blocks n (in_order schedule s)

-- Words of four bytes, the first the lowest.
abbrev pub words : ℕ → ℕ → Bytes → List ℕ
words zero i p = []
words (suc n) i p =
    (get_or p i 0
      + get_or p (i + 1) 0 * 2 ^ 8
      + get_or p (i + 2) 0 * 2 ^ 16
      + get_or p (i + 3) 0 * 2 ^ 24)
    ∷ words n (i + 4) p

-- "expand 32-byte k"
abbrev pub constants : Bytes
constants =
    b'e' ∷ b'x' ∷ b'p' ∷ b'a' ∷ b'n' ∷ b'd' ∷ b' ' ∷ b'3' ∷ b'2' ∷ b'-' ∷ b'b' ∷ b'y' ∷ b't' ∷ b'e'
    ∷ b' ' ∷ b'k' ∷ []

abbrev pub state : Bytes → ℕ → Bytes → List ℕ
state key counter nonce = words 4 0 constants ++ words 8 0 key ++ (counter ∷ words 3 0 nonce)

-- The sums of the words, the low byte of each first.
abbrev pub serialized : List ℕ → List ℕ → Bytes
serialized [] ys = []
serialized (x ∷ xs) [] = []
serialized (x ∷ xs) (y ∷ ys) =
    let v = plus x y in
    v % 256 ∷ v / 2 ^ 8 % 256 ∷ v / 2 ^ 16 % 256 ∷ v / 2 ^ 24 % 256 ∷ serialized xs ys

abbrev pub block_of : Bytes → ℕ → Bytes → Bytes
block_of key counter nonce = let s = state key counter nonce in serialized (inner_blocks 10 s) s

-- Section 2.4: the byte at position `j` is XORed with byte `j % 64` of block `j / 64`, whose counter
-- is that much higher. `input` stands at position `j`.
abbrev pub encrypted : Bytes → Bytes → ℕ → ℕ → Bytes → Bytes
encrypted key nonce counter j [] = []
encrypted key nonce counter j (x ∷ xs) =
    bit_xor x (get_or (block_of key (plus counter (j / 64)) nonce) (j % 64) 0)
    ∷ encrypted key nonce counter (j + 1) xs
