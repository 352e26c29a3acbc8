-- ===== src/Record/Unified/Written.antt =====
-- What the parser reads from a unified header as the serializer lays it out.
use nano_dtls.Base.{
  ℕ, ◌+◌, ◌^◌, ◌<◌, ◌≡◌, refl, ◌∙◌, ap, arith, Bool, true, false, if◌then◌else◌, u8, ◌>>>◌, [], ◌∷◌,
  ◌++◌,
}
use nano_dtls.Base.{Bytes, length, get_or, take, drop, slice, be16, be16_split}
use nano_dtls.Base.{length-append, get_or_behind, drop_behind, take-append}
use mathlib.Core.Path.{ap₂}
use nano_dtls.Record.Unified.{seq_size, length_size}
use nano_dtls.Record.Unified.Reads.{seq_at, length_at}

-- The fields as bytes.
abbrev pub seq_bytes : Bool → ℕ → Bytes
seq_bytes s v = if s then u8 (v >>> 8) ∷ u8 v ∷ [] else u8 v ∷ []

abbrev pub length_bytes : Bool → ℕ → Bytes
length_bytes l n = if l then u8 (n >>> 8) ∷ u8 n ∷ [] else []

-- The datagram: the first byte and the connection ID in `pre`, the two numbers, the payload, and
-- what follows it.
abbrev pub datagram : Bytes → Bool → ℕ → Bool → Bytes → Bytes → Bytes
datagram pre s v l payload rest =
    pre ++ (seq_bytes s v ++ (length_bytes l (length payload) ++ (payload ++ rest)))

-- A record without a length runs to the end of its datagram.
abbrev pub Ends : Bool → Bytes → Bytes → Type 0
Ends true payload rest = length payload < 2 ^ 16
Ends false payload rest = (length payload < 2 ^ 16) × (rest ≡ [])

-- The number fits the bytes it is given.
abbrev pub FitsSeq : Bool → ℕ → Type 0
FitsSeq s v = if s then v < 2 ^ 16 else v < 2 ^ 8

module _ (pre payload rest : Bytes) (v : ℕ) where
  -- A byte of the two numbers, `k` bytes behind `pre`.
  byte_written :
      (s l : Bool) (i k : ℕ)
      → i ≡ length pre + k
      → get_or (datagram pre s v l payload rest) i 0
        ≡ get_or (seq_bytes s v ++ (length_bytes l (length payload) ++ (payload ++ rest))) k 0
  byte_written s l =
      get_or_behind pre (seq_bytes s v ++ (length_bytes l (length payload) ++ (payload ++ rest))) 0

  pub seq_written :
      (s l : Bool) → FitsSeq s v → seq_at (datagram pre s v l payload rest) s (length pre) ≡ v
  seq_written true l fits =
      ap₂ be16 (byte_written true l (length pre) 0 (omega arith))
        (byte_written true l (length pre + 1) 1 (omega arith))
      ∙ be16_split v fits
  seq_written false l fits = byte_written false l (length pre) 0 (omega arith) ∙ omega arith

  length-numbers :
      (s l : Bool)
      → length (seq_bytes s v ++ (length_bytes l (length payload) ++ (payload ++ rest)))
        ≡ seq_size s + length_size l + (length payload + length rest)
  length-numbers true true = omega (arith, length-append payload rest)
  length-numbers true false = omega (arith, length-append payload rest)
  length-numbers false true = omega (arith, length-append payload rest)
  length-numbers false false = omega (arith, length-append payload rest)

  pub length-datagram :
      (s l : Bool)
      → length (datagram pre s v l payload rest)
        ≡ length pre + (seq_size s + length_size l + (length payload + length rest))
  length-datagram s l =
      length-append pre (seq_bytes s v ++ (length_bytes l (length payload) ++ (payload ++ rest)))
      ∙ ap (λ n. length pre + n) (length-numbers s l)

  pub length_written :
      (s l : Bool)
      → Ends l payload rest
      → length_at (datagram pre s v l payload rest) l (length pre + seq_size s) ≡ length payload
  length_written true true ends =
      ap₂ be16 (byte_written true true (length pre + 2) 2 refl)
        (byte_written true true (length pre + 2 + 1) 3 (omega arith))
      ∙ be16_split (length payload) ends
  length_written false true ends =
      ap₂ be16 (byte_written false true (length pre + 1) 1 refl)
        (byte_written false true (length pre + 1 + 1) 2 (omega arith))
      ∙ be16_split (length payload) ends
  length_written true false ends = omega (arith, length-datagram true false, ap length ends.1)
  length_written false false ends = omega (arith, length-datagram false false, ap length ends.1)

  pub payload_written :
      (s l : Bool)
      → slice
          (datagram pre s v l payload rest)
          (length pre + seq_size s + length_size l)
          (length payload)
        ≡ payload
  payload_written s l =
      ap (take (length payload)) (
        drop_behind pre (seq_bytes s v ++ (length_bytes l (length payload) ++ (payload ++ rest)))
          (length pre + seq_size s + length_size l) (seq_size s + length_size l) (omega arith)
        ∙ behind_numbers s l)
      ∙ take-append payload rest
    where
      behind_numbers :
          (s l : Bool)
          → drop
              (seq_size s + length_size l)
              (seq_bytes s v ++ (length_bytes l (length payload) ++ (payload ++ rest)))
            ≡ payload ++ rest
      behind_numbers true true = refl
      behind_numbers true false = refl
      behind_numbers false true = refl
      behind_numbers false false = refl
