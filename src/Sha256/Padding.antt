-- ===== src/Sha256/Padding.antt =====
-- `nd_sha256_final` on a whole message: the message with its padding, compressed block by block.
use nano_dtls.Base.{
  ℕ, zero, suc, ◌+◌, ◌-◌, ◌*◌, ◌/◌, ◌%◌, ◌≤◌, ◌≡◌, refl, sym, ap, ◌∙◌, arith, List, [], ◌∷◌, ◌++◌,
  ◌!=◌, if◌then◌else◌, true,
}
use nano_dtls.Base.{
  Bytes, length, drop, u64, replicate, length-append, length-drop, length-replicate,
}
use mathlib.Core.List.{append_assoc, append-nil}
use nano_dtls.Sha256.{Ctx, init, start, update, zero_pad, len_bytes, digest, final, sha256}
use nano_dtls.Sha256.Stream.{chain, state_of, update-state_of}

-- The zeros behind a message of `n` bytes that bring it to 56 bytes beyond a block.
abbrev pub zeros : ℕ → ℕ
zeros n = (120 - n % 64) % 64

test_at : (m : Bytes) (n : ℕ) → n ≡ length m % 64 → length (drop (length m / 64 * 64) m) ≡ n
test_at m n e = omega (arith, length-drop (length m / 64 * 64) m)

-- The loop ends at 56, with `k` zeros appended; what it leaves in `total_len` is not read again.
zero_pad-state_of :
    (fuel k : ℕ) (m : Bytes) (total : ℕ)
    → k ≡ zeros (length m)
    → k ≤ fuel
    → (total' : ℕ) × (zero_pad fuel (state_of m total) ≡ state_of (m ++ replicate k 0) total')
unfolding zero_pad
zero_pad-state_of zero zero m total e enough =
    (total, ap (λ t. state_of t total) (sym (append-nil m)))
zero_pad-state_of zero (suc k) m total e enough = absurd (omega arith)
zero_pad-state_of (suc fuel) zero m total e enough =
    let there : length (drop (length m / 64 * 64) m) ≡ 56 = test_at m 56 (omega arith) in
    (
      total,
      ap
            (λ t.
              if t != 56
              then zero_pad fuel (update (state_of m total) (0 ∷ []))
              else state_of m total)
            there
          ∙ ap (λ t. state_of t total) (sym (append-nil m)),
    )
zero_pad-state_of (suc fuel) (suc k) m total e enough =
    let apart : (length (drop (length m / 64 * 64) m) != 56) ≡ true =
      ground (arith, test_at m (length m % 64) refl) in
    let (total', padded) =
      zero_pad-state_of fuel k (m ++ 0 ∷ []) (u64 (total + 1))
        (omega (arith, length-append m (0 ∷ []))) (omega arith) in
    (
      total',
      ap (λ t. if t then zero_pad fuel (update (state_of m total) (0 ∷ [])) else state_of m total)
            apart
          ∙ ap (zero_pad fuel) (update-state_of m (0 ∷ []) total)
          ∙ padded
          ∙ ap (λ t. state_of t total') (append_assoc m (0 ∷ []) (replicate k 0)),
    )

-- The padding of FIPS 180-4, section 5.1.1: a one bit, zeros, and the length in bits.
abbrev pub padding : ℕ → Bytes
padding n = 0x80 ∷ (replicate (zeros (n + 1)) 0 ++ len_bytes 8 0 (u64 (n * 8)))

-- The hash of a message with the padding of the standard, on the whole of it.
abbrev pub standard : Bytes → Bytes
standard m =
    let padded = m ++ padding (length m) in digest (chain (length padded / 64) start padded)

pub length-padding : (n : ℕ) → (n + length (padding n)) % 64 ≡ 0
length-padding n = omega (
  arith,
  length-append (replicate (zeros (n + 1)) 0) (len_bytes 8 0 (u64 (n * 8))),
  length-replicate {A = ℕ} (zeros (n + 1)) 0,
)

pub final-state_of : (m : Bytes) (n : ℕ) → n ≡ u64 (length m) → final (state_of m n) ≡ standard m
unfolding final
final-state_of m n e =
    let first : Bytes = m ++ 0x80 ∷ [] in
    let k : ℕ = zeros (length m + 1) in
    let more : Bytes = replicate k 0 in
    let bits : Bytes = len_bytes 8 0 (u64 (n * 8)) in
    let (total, padded) =
      zero_pad-state_of 64 k first (u64 (n + 1)) (omega (arith, length-append m (0x80 ∷ [])))
        (omega arith) in
    ap (λ c. digest (update (zero_pad 64 c) bits).h) (update-state_of m (0x80 ∷ []) n)
    ∙ ap (λ c. digest (update c bits).h) padded
    ∙ ap (λ c. digest c.h) (update-state_of (first ++ more) bits total)
    ∙ ap (λ t. digest (chain (length t / 64) start t))
        (append_assoc first more bits
          ∙ append_assoc m (0x80 ∷ []) (more ++ bits)
          ∙ ap (λ b. m ++ 0x80 ∷ (more ++ len_bytes 8 0 b)) (omega arith))

-- The contexts that the pieces of a message are fed to, one after the other.
abbrev pub feed : List Bytes → Ctx → Ctx
feed [] ctx = ctx
feed (d ∷ ds) ctx = feed ds (update ctx d)

abbrev pub joined : List Bytes → Bytes
joined [] = []
joined (d ∷ ds) = d ++ joined ds

feed-state_of :
    (ds : List Bytes) (m : Bytes) (n : ℕ)
    → n ≡ u64 (length m)
    → (n' : ℕ) × (n' ≡ u64 (length (m ++ joined ds)))
      × (feed ds (state_of m n) ≡ state_of (m ++ joined ds) n')
feed-state_of [] m n e = (
  n,
  e ∙ ap (λ t. u64 (length t)) (sym (append-nil m)),
  ap (λ t. state_of t n) (sym (append-nil m)),
)
feed-state_of (d ∷ ds) m n e =
    let (n', total, fed) =
      feed-state_of ds (m ++ d) (u64 (n + length d)) (omega (arith, length-append m d)) in
    let whole : (m ++ d) ++ joined ds ≡ m ++ (d ++ joined ds) = append_assoc m d (joined ds) in
    (
      n',
      total ∙ ap (λ t. u64 (length t)) whole,
      ap (feed ds) (update-state_of m d n) ∙ fed ∙ ap (λ t. state_of t n') whole,
    )

-- However a message is cut into the data of calls of `nd_sha256_update`, empty ones among them,
-- `nd_sha256_final` gives the hash of the whole message with its padding, with the number
-- of its bits modulo 2^64.
pub final-feed : (ds : List Bytes) → final (feed ds init) ≡ standard (joined ds)
final-feed ds =
    let (n, total, fed) = feed-state_of ds [] 0 refl in
    ap final fed ∙ final-state_of (joined ds) n total

pub sha256-standard : (m : Bytes) → sha256 m ≡ standard m
unfolding sha256
sha256-standard m = final-feed (m ∷ []) ∙ ap standard (append-nil m)
