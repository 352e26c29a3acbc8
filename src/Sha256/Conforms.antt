-- ===== src/Sha256/Conforms.antt =====
-- src/crypto/sha256.c is the hash function of FIPS 180-4.
use mathlib.Core.Path.{ap₂}
use nano_dtls.Base.{
  ℕ, zero, suc, ◌+◌, ◌-◌, ◌*◌, ◌/◌, ◌%◌, ◌<◌, ◌≡◌, ◌^◌, refl, sym, ap, ◌∙◌, arith, List, [], ◌∷◌,
  ◌++◌,
}
use nano_dtls.Base.{
  Bytes, IsBytes, IsBytes-append, IsBytes-take, IsBytes-drop, length, get_or, take, drop,
  byte_bound, replicate, get_or-drop, drop-add, u64, bit_or, bit_xor, bit_or_sum, u32, ◌>>>◌, ◌<<<◌,
}
use nano_dtls.Sha256.{init, start, digest, final, len_bytes}
use nano_dtls.Sha256.Compress.{
  Words, round_constants, load_words, extend, round, all_rounds, compress, rotr32,
}
use nano_dtls.Sha256.Stream.{chain}
use nano_dtls.Sha256.Padding.{feed, joined, padding, standard, final-feed}
use nano_dtls.Sha256.Fips180.{
  Working, constants, first_hash, working, words, sigma0, sigma1, schedule, steps, added, next_hash,
  blocks, padded, bytes8, hash_bytes, fips180,
}

abbrev vars : Words → Working
vars s = (s.a, s.b, s.c, s.d, s.e, s.f, s.g, s.h)

constants_same : round_constants ≡ constants
unfolding constants
constants_same = refl

start_same : vars start ≡ working first_hash
unfolding first_hash
start_same = refl

four_bytes :
    (a b c d : ℕ)
    → b < 256
    → c < 256
    → d < 256
    → bit_or (bit_or (bit_or (a <<< 24) (b <<< 16)) (c <<< 8)) d
      ≡ a * 2 ^ 24 + b * 2 ^ 16 + c * 2 ^ 8 + d
four_bytes a b c d hb hc hd =
    ap (λ t. bit_or (bit_or t (c <<< 8)) d)
      (bit_or_sum 24 a (a <<< 24) (b <<< 16) refl (omega arith))
    ∙ ap (λ t. bit_or t d)
        (bit_or_sum 16 (a * 2 ^ 8 + b) (a <<< 24 + b <<< 16) (c <<< 8) (omega arith) (omega arith))
    ∙ bit_or_sum 8 (a * 2 ^ 16 + b * 2 ^ 8 + c) (a <<< 24 + b <<< 16 + c <<< 8) d (omega arith) hd

load_words-words :
    (n i : ℕ) (block m : Bytes)
    → IsBytes block
    → m ≡ drop (i * 4) block
    → load_words n i block ≡ words n m
load_words-words zero i block m h e = refl
load_words-words (suc n) i block m h e =
    let at : (k : ℕ) → get_or block (i * 4 + k) 0 ≡ get_or m k 0 =
      λ k. sym (get_or-drop (i * 4) k block) ∙ ap (λ t. get_or t k 0) (sym e) in
    let first : get_or block (i * 4) 0 ≡ get_or m 0 0 =
      ap (λ k. get_or block k 0) (omega arith) ∙ at 0 in
    ap₂ ◌∷◌
      (four_bytes (get_or block (i * 4) 0) (get_or block (i * 4 + 1) 0) (get_or block (i * 4 + 2) 0)
          (get_or block (i * 4 + 3) 0) (byte_bound block (i * 4 + 1) h)
          (byte_bound block (i * 4 + 2) h) (byte_bound block (i * 4 + 3) h)
        ∙ (λ j. first j * 2 ^ 24 + at 1 j * 2 ^ 16 + at 2 j * 2 ^ 8 + at 3 j))
      (load_words-words n (i + 1) block (drop 4 m) h
        (ap (drop 4) e ∙ sym (drop-add (i * 4) 4 block) ∙ ap (λ k. drop k block) (omega arith)))

extend-schedule :
    (left n i : ℕ) (w : List ℕ) (block : Bytes)
    → i ≡ 16 + n
    → w ≡ schedule n block
    → extend left i w ≡ schedule (left + n) block
unfolding schedule
extend-schedule zero n i w block e h =
    let count : n ≡ 0 + n = omega arith in h ∙ ap (λ k. schedule k block) count
extend-schedule (suc left) n i w block e h =
    extend-schedule left (suc n) (i + 1) _ block (omega arith) (
      (λ j. h j ++ word (e j) (h j) ∷ [])
      ∙ ap (λ v. schedule n block ++ v ∷ []) (same (16 + n) (schedule n block)))
    ∙ ap (λ k. schedule k block) count
  where
    count : left + suc n ≡ suc left + n
    count = omega arith

    word : ℕ → List ℕ → ℕ
    word t ws =
        let x = get_or ws (t - 15) 0 in
        let y = get_or ws (t - 2) 0 in
        let s0 = bit_xor (bit_xor (rotr32 x 7) (rotr32 x 18)) (x >>> 3) in
        let s1 = bit_xor (bit_xor (rotr32 y 17) (rotr32 y 19)) (y >>> 10) in
        u32 (get_or ws (t - 16) 0 + s0 + get_or ws (t - 7) 0 + s1)

    swap : (a b c d : ℕ) → u32 (a + b + c + d) ≡ (d + c + b + a) % 2 ^ 32
    swap a b c d = omega arith

    same :
        (t : ℕ) (ws : List ℕ)
        → word t ws
          ≡ (sigma1 (get_or ws (t - 2) 0)
              + get_or ws (t - 7) 0
              + sigma0 (get_or ws (t - 15) 0)
              + get_or ws (t - 16) 0)
            % 2 ^ 32
    same t ws =
        swap (get_or ws (t - 16) 0) (sigma0 (get_or ws (t - 15) 0)) (get_or ws (t - 7) 0)
          (sigma1 (get_or ws (t - 2) 0))

all_rounds-steps : (ks ws : List ℕ) (s : Words) → vars (all_rounds ks ws s) ≡ steps ks ws (vars s)
unfolding steps
all_rounds-steps [] ws s = refl
all_rounds-steps (k ∷ ks) [] s = refl
all_rounds-steps (k ∷ ks) (w ∷ ws) s = all_rounds-steps ks ws (round s k w)

load_words-schedule : (block : Bytes) → IsBytes block → load_words 16 0 block ≡ schedule 0 block
unfolding schedule
load_words-schedule block bytes = load_words-words 16 0 block block bytes refl

compress-next_hash :
    (h : Words) (block : Bytes) → IsBytes block → vars (compress h block) ≡ next_hash (vars h) block
unfolding compress next_hash
compress-next_hash h block bytes =
    let w : extend 48 16 (load_words 16 0 block) ≡ schedule 48 block =
      extend-schedule 48 0 16 (load_words 16 0 block) block refl
        (load_words-schedule block bytes) in
    ap (added (vars h)) (
      all_rounds-steps round_constants (extend 48 16 (load_words 16 0 block)) h
      ∙ (λ i. steps (constants_same i) (w i) (vars h)))

chain-blocks :
    (n : ℕ) (h : Words) (m : Bytes) → IsBytes m → vars (chain n h m) ≡ blocks n (vars h) m
unfolding blocks
chain-blocks zero h m bytes = refl
chain-blocks (suc n) h m bytes =
    chain-blocks n (compress h (take 64 m)) (drop 64 m) (IsBytes-drop 64 m bytes)
    ∙ ap (λ s. blocks n s (drop 64 m)) (compress-next_hash h (take 64 m) (IsBytes-take 64 m bytes))

padding-padded : (m : Bytes) → m ++ padding (length m) ≡ padded m
padding-padded m =
    ap (λ n. m ++ 0x80 ∷ (replicate n 0 ++ len_bytes 8 0 (u64 (length m * 8)))) (omega arith)
    ∙ ap (λ t. m ++ 0x80 ∷ (replicate ((119 - length m % 64) % 64) 0 ++ t))
        (written (u64 (length m * 8)))
  where
    written : (n : ℕ) → len_bytes 8 0 n ≡ bytes8 n
    written n =
        let e0 : n >>> 56 % 256 ≡ n / 2 ^ 32 / 2 ^ 24 % 256 = omega arith in
        let e1 : n >>> 48 % 256 ≡ n / 2 ^ 32 / 2 ^ 16 % 256 = omega arith in
        let e2 : n >>> 40 % 256 ≡ n / 2 ^ 32 / 2 ^ 8 % 256 = omega arith in
        λ i.
          e0 i
          ∷ e1 i
          ∷ e2 i
          ∷ (n / 2 ^ 32 % 256)
          ∷ (n / 2 ^ 24 % 256)
          ∷ (n / 2 ^ 16 % 256)
          ∷ (n / 2 ^ 8 % 256)
          ∷ last i
          ∷ []
      where
        last : n >>> 0 % 256 ≡ n % 256
        last = omega arith

IsBytes-zeros : (n : ℕ) → IsBytes (replicate n 0)
IsBytes-zeros zero = tt
IsBytes-zeros (suc n) = (omega arith, IsBytes-zeros n)

padded-IsBytes : (m : Bytes) → IsBytes m → IsBytes (padded m)
padded-IsBytes m h = IsBytes-append m _ h (
  omega arith,
  IsBytes-append (replicate ((119 - length m % 64) % 64) 0) _ (IsBytes-zeros _) (omega arith),
)

digest-hash_bytes : (s : Words) → digest s ≡ hash_bytes (vars s)
digest-hash_bytes s = refl

pub standard-fips180 : (m : Bytes) → IsBytes m → standard m ≡ fips180 m
standard-fips180 m h =
    let size : ℕ = length (padded m) / 64 in
    ap (λ t. digest (chain (length t / 64) start t)) (padding-padded m)
    ∙ digest-hash_bytes (chain size start (padded m))
    ∙ ap hash_bytes (
        chain-blocks size start (padded m) (padded-IsBytes m h)
        ∙ ap (λ s. blocks size s (padded m)) start_same)

-- However a message of bytes is cut into the data of calls of `nd_sha256_update`, empty ones among
-- them, `nd_sha256_final` gives the digest that FIPS 180-4 defines for the whole message, with the
-- number of its bits modulo 2^64: the constants are the roots of the first primes, and the
-- schedule, the rounds and the padding are those of the standard.
pub final-fips180 :
    (ds : List Bytes) → IsBytes (joined ds) → final (feed ds init) ≡ fips180 (joined ds)
final-fips180 ds h = final-feed ds ∙ standard-fips180 (joined ds) h
