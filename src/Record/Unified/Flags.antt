-- ===== src/Record/Unified/Flags.antt =====
-- The bits of the first byte of the unified header.
use nano_dtls.Base.{
  ℕ, ◌%◌, ◌<◌, ◌≡◌, refl, ◌∙◌, ap, arith, Bool, true, ◌&&◌, ◌||◌, not, if◌then◌else◌, ◌==◌, ◌!=◌,
  bit_and, bit_or, u8, bit_and_mask, both, both_at, all_below, all_below_at,
}
use nano_dtls.Record.Unified.{flags}

-- Only the two low bits of the epoch count.
flags-low : (c s l : Bool) (e : ℕ) → flags c s l e ≡ flags c s l (e % 4)
unfolding flags
flags-low c s l e =
    ap
      (λ t. u8 (
        bit_or
          (bit_or (bit_or (bit_or 0x20 (if c then 0x10 else 0)) (if s then 0x08 else 0))
            (if l then 0x04 else 0))
          t))
      (bit_and_mask 2 e ∙ omega (arith, bit_and_mask 2 (e % 4)))

-- A test at every combination of the bits of the byte.
abbrev everywhere : (Bool → Bool → Bool → ℕ → Bool) → Bool
everywhere p = both (λ c. both (λ s. both (λ l. all_below 4 (p c s l))))

everywhere_at :
    (p : Bool → Bool → Bool → ℕ → Bool)
    → everywhere p ≡ true
    → (c s l : Bool) (e : ℕ) → e < 4
    → p c s l e ≡ true
everywhere_at p h c s l = all_below_at 4 (p c s l) (
    both_at (λ l. all_below 4 (p c s l))
      (both_at (λ s. both (λ l. all_below 4 (p c s l)))
        (both_at (λ c. both (λ s. both (λ l. all_below 4 (p c s l)))) h c) s)
      l)

-- What the parser tests of a byte `b`, against what the serializer was given.
abbrev decodes : ℕ → Bool → Bool → Bool → ℕ → Bool
decodes b c s l e =
    (bit_and b 0xe0 == 0x20)
    && (bit_and b 0x10 == (if c then 0x10 else 0))
    && (bit_and b 0x08 == (if s then 0x08 else 0))
    && (bit_and b 0x04 == (if l then 0x04 else 0))
    && (u8 (bit_and b 0x03) == e)

flags-decodes : (c s l : Bool) (e : ℕ) → e < 4 → decodes (flags c s l e) c s l e ≡ true
unfolding flags
flags-decodes = everywhere_at (λ c s l e. decodes (flags c s l e) c s l e) refl

-- The bits of a byte.
abbrev pub Decoded : ℕ → Bool → Bool → Bool → ℕ → Type 0
Decoded b c s l e =
    (bit_and b 0xe0 ≡ 0x20)
    × ((bit_and b 0x10 != 0) ≡ c)
    × ((bit_and b 0x08 != 0) ≡ s)
    × ((bit_and b 0x04 != 0) ≡ l)
    × (u8 (bit_and b 0x03) ≡ e)

decodes-Decoded : (b : ℕ) (c s l : Bool) (e : ℕ) → decodes b c s l e ≡ true → Decoded b c s l e
decodes-Decoded b c s l e h = ground (arith, h)

-- The parser reads from the byte what the serializer put in it.
pub flags-Decoded : (c s l : Bool) (e : ℕ) → Decoded (flags c s l e) c s l (e % 4)
flags-Decoded c s l e = rw (flags-low c s l e) (
    decodes-Decoded (flags c s l (e % 4)) c s l (e % 4) (flags-decodes c s l (e % 4) (omega arith)))

-- The byte that is written for what was parsed.
abbrev rewritten : ℕ → ℕ
rewritten b =
    flags (bit_and b 0x10 != 0) (bit_and b 0x08 != 0) (bit_and b 0x04 != 0) (u8 (bit_and b 0x03))

-- A first byte is determined by its bits.
pub flags-parsed : (b : ℕ) → b < 256 → bit_and b 0xe0 ≡ 0x20 → rewritten b ≡ b
unfolding flags
flags-parsed b byte fixed = ground (
  arith,
  all_below_at 256 (λ b. not (bit_and b 0xe0 == 0x20) || (rewritten b == b)) refl b byte,
  fixed,
)
