-- ===== src/Hello/Extensions.antt =====
-- `find_extension` against a lookup in the list that a block of extensions encodes.
use nano_dtls.Base.{
  ℕ, zero, suc, ◌-◌, ◌^◌, ◌≤◌, ◌<◌, ◌≡◌, ◌≢◌, refl, ap, ◌∙◌, arith, Bool, true, false, List, [],
  ◌∷◌, ◌++◌, ◌==◌, if◌then◌else◌, Option, none, some,
}
use nano_dtls.Base.{
  Bytes, length, length-append, Result, ok, err, fault, truncated, u8, ◌>>>◌, drop,
}
use nano_dtls.Wire.{Reader, value, r_init}
use nano_dtls.Wire.Reading.{at, step, spent, more, vec16, read_vec16, r_u16-at}
use nano_dtls.Wire.Progress.{
  Moves, if-Moves, then-Moves, round-Moves, value-returns, r_bytes-Moves, r_u16-Moves, pure-Moves,
}
use nano_dtls.Hello.{scan, found, find_extension}

abbrev pub u16_bytes : ℕ → Bytes
u16_bytes v = u8 (v >>> 8) ∷ u8 v ∷ []

-- RFC 8446, 4.2: the type of an extension, and its data as a vector.
abbrev pub extension_list : List (ℕ × Bytes) → Bytes
extension_list [] = []
extension_list ((type, content) ∷ rest) = u16_bytes type ++ (vec16 content ++ extension_list rest)

-- The data of the first extension of a type.
abbrev pub lookup : ℕ → List (ℕ × Bytes) → Option Bytes
lookup want [] = none
lookup want ((type, content) ∷ rest) = if type == want then some content else lookup want rest

abbrev pub Encodable : List (ℕ × Bytes) → Type 0
Encodable [] = Unit
Encodable ((type, content) ∷ rest) = (type < 2 ^ 16) × (length content < 2 ^ 16) × Encodable rest

many : (exts : List (ℕ × Bytes)) → length exts ≤ length (extension_list exts)
many [] = omega arith
many ((type, content) ∷ rest) =
    omega (arith, many rest, length-append content (extension_list rest))

-- The test of a type, on both branches.
choose :
    (b : Bool) (content : Bytes) (s : Reader) (x : Result (Option Bytes × Reader))
    (y : Option Bytes)
    → value x ≡ ok y
    → value (if b then ok (some content, s) else x) ≡ ok (if b then some content else y)
choose true content s x y h = refl
choose false content s x y h = h

-- The scan's outcome, up to where it leaves the reader.
scan-lookup :
    (exts : List (ℕ × Bytes)) (want fuel : ℕ) (pre : Bytes)
    → Encodable exts
    → length exts < fuel
    → value (scan fuel want (at pre (extension_list exts))) ≡ ok (lookup want exts)
scan-lookup exts want zero pre good enough = absurd (omega arith)
scan-lookup [] want (suc fuel) pre good enough = rw (spent pre) refl
scan-lookup ((type, content) ∷ rest) want (suc fuel) pre (small, short, good) enough =
    rw (more pre (u8 (type >>> 8)) (drop 1 (extension_list ((type, content) ∷ rest)))) (
      ap value (
        step _ (r_u16-at truncated pre (vec16 content ++ extension_list rest) type small)
          (read_vec16 _ _ (pre ++ u16_bytes type) content (extension_list rest) _ short refl))
      ∙ choose (type == want) content
          (at (pre ++ u16_bytes type ++ vec16 content) (extension_list rest)) _ _
          (scan-lookup rest want fuel (pre ++ u16_bytes type ++ vec16 content) good (omega arith)))

scan-Moves :
    (fuel want : ℕ) (r : Reader) → length r.buf - r.pos < fuel → Moves 0 r (scan fuel want r)
scan-Moves zero want r enough = absurd (omega arith)
scan-Moves (suc fuel) want r enough = round-Moves r _ none λ inside.
    then-Moves 2 r _ _ (r_u16-Moves truncated r) λ type s same far.
      then-Moves 2 s _ _ (r_u16-Moves truncated s) λ n t same' far'.
        then-Moves n t _ _ (r_bytes-Moves truncated n t) λ content u same'' far''.
          if-Moves u (type == want) _ _ (pure-Moves (some content) u)
            (scan-Moves fuel want u (rw (same'', same', same) (omega arith)))

-- On a block that encodes a list of extensions, with types and lengths below 2 ^ 16, the search
-- returns the data of the first extension of the wanted type, or nothing where there is none.
pub find_extension-lookup :
    (exts : List (ℕ × Bytes)) (want : ℕ)
    → Encodable exts
    → find_extension (extension_list exts) want ≡ ok (lookup want exts)
unfolding find_extension
find_extension-lookup exts want good =
    ap found (
      scan-lookup exts want (suc (length (extension_list exts))) [] good (omega (arith, many exts)))

found-returns : (m : Result (Option Bytes)) → m ≢ fault → found m ≢ fault
found-returns (ok x) h same = absurd (ground (arith, same))
found-returns (err e) h same = absurd (ground (arith, same))
found-returns fault h same = h refl

pub find_extension-returns : (block : Bytes) (want : ℕ) → find_extension block want ≢ fault
unfolding find_extension
find_extension-returns block want = found-returns _ (
    value-returns 0 (r_init block) _
      (scan-Moves (suc (length block)) want (r_init block) (omega arith)))
