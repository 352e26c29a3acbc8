-- ===== src/Wire/Reading.antt =====
-- What the reader reads, at a place in a buffer that is known.
use nano_dtls.Base.{
  ℕ, ◌+◌, ◌^◌, ◌<◌, ◌≡◌, refl, sym, ap, ◌∙◌, arith, [], ◌∷◌, ◌++◌, Bool, true, false, ltb,
}
use nano_dtls.Base.{
  Bytes, length, take, slice, length-append, drop_behind, take-append, be16_split, be24_split, u8,
  ◌>>>◌, Result, ok, Status, ltb_of_le, lt→ltb,
}
use mathlib.Core.List.{append_assoc, append-nil}
use nano_dtls.Wire.{
  Reader, Parser, ◌>>=◌, ◌>>◌, continue, value, lift, refuse, r_bytes, r_skip, r_u8, r_u16, r_u24,
}

-- The reader behind `pre`, in front of `rest`.
abbrev pub at : Bytes → Bytes → Reader
at pre rest = record { buf = pre ++ rest; pos = length pre }

-- The loops' test: whether the reader is at the end.
pub spent : (pre : Bytes) → ltb (length pre) (length (pre ++ [])) ≡ false
spent pre = rw (append-nil pre) (ltb_of_le (length pre) (length pre) (omega arith))

pub more : (pre : Bytes) (x : ℕ) (rest : Bytes) → ltb (length pre) (length (pre ++ x ∷ rest)) ≡ true
more pre x rest =
    lt→ltb (length pre) (length (pre ++ x ∷ rest)) (omega (arith, length-append pre (x ∷ rest)))

pub at_rest : (pre : Bytes) → at pre [] ≡ at (pre ++ []) []
at_rest pre = λ i. at (sym (append-nil pre) i) []

-- A step passes its value and its reader on.
pub step :
    {A B : Type 0} {m : Result (A × Reader)} {a : A} {s : Reader} {x : Result (B × Reader)}
    (f : A → Parser B)
    → m ≡ ok (a, s)
    → f a s ≡ x
    → continue m f ≡ x
step f e h = ap (λ m. continue m f) e ∙ h

module _ (e : Status) (pre xs rest : Bytes) where
  fits : ltb (length (pre ++ (xs ++ rest))) (length pre + length xs) ≡ false
  fits =
      ltb_of_le (length (pre ++ (xs ++ rest))) (length pre + length xs)
        (omega (arith, length-append pre (xs ++ rest), length-append xs rest))

  moved : record { buf = pre ++ (xs ++ rest); pos = length pre + length xs } ≡ at (pre ++ xs) rest
  moved =
      let same : pre ++ (xs ++ rest) ≡ (pre ++ xs) ++ rest = sym (append_assoc pre xs rest) in
      let far : length pre + length xs ≡ length (pre ++ xs) = sym (length-append pre xs) in
      λ i. record { buf = same i; pos = far i }

  shown : slice (pre ++ (xs ++ rest)) (length pre) (length xs) ≡ xs
  shown =
      ap (take (length xs)) (drop_behind pre (xs ++ rest) (length pre) 0 (omega arith))
      ∙ take-append xs rest

  pub r_bytes-at : r_bytes e (length xs) (at pre (xs ++ rest)) ≡ ok (xs, at (pre ++ xs) rest)
  unfolding r_bytes
  r_bytes-at = rw fits (λ i. ok (shown i, moved i))

  pub r_skip-at : r_skip e (length xs) (at pre (xs ++ rest)) ≡ ok (tt, at (pre ++ xs) rest)
  unfolding r_skip
  r_skip-at = rw fits (λ i. ok (tt, moved i))

  pub r_skip-exactly :
      (n : ℕ) → length xs ≡ n → r_skip e n (at pre (xs ++ rest)) ≡ ok (tt, at (pre ++ xs) rest)
  r_skip-exactly n h = rw (sym h) r_skip-at

  pub r_bytes-exactly :
      (n : ℕ) → length xs ≡ n → r_bytes e n (at pre (xs ++ rest)) ≡ ok (xs, at (pre ++ xs) rest)
  r_bytes-exactly n h = rw (sym h) r_bytes-at

module _ (e : Status) (pre rest : Bytes) where
  pub r_u8-at : (v : ℕ) → r_u8 e (at pre (v ∷ rest)) ≡ ok (v, at (pre ++ v ∷ []) rest)
  unfolding r_u8
  r_u8-at v = step _ (r_bytes-at e pre (v ∷ []) rest) refl

  -- The number as it was written.
  pub r_u16-at :
      (v : ℕ)
      → v < 2 ^ 16
      → r_u16 e (at pre (u8 (v >>> 8) ∷ u8 v ∷ rest))
        ≡ ok (v, at (pre ++ u8 (v >>> 8) ∷ u8 v ∷ []) rest)
  unfolding r_u16
  r_u16-at v h =
      step _ (r_bytes-at e pre (u8 (v >>> 8) ∷ u8 v ∷ []) rest)
        (ap (λ k. ok (k, at (pre ++ u8 (v >>> 8) ∷ u8 v ∷ []) rest)) (be16_split v h))

  pub r_u24-at :
      (v : ℕ)
      → v < 2 ^ 24
      → r_u24 e (at pre (u8 (v >>> 16) ∷ u8 (v >>> 8) ∷ u8 v ∷ rest))
        ≡ ok (v, at (pre ++ u8 (v >>> 16) ∷ u8 (v >>> 8) ∷ u8 v ∷ []) rest)
  unfolding r_u24
  r_u24-at v h =
      step _ (r_bytes-at e pre (u8 (v >>> 16) ∷ u8 (v >>> 8) ∷ u8 v ∷ []) rest) (
        ap (λ k. ok (k, at (pre ++ u8 (v >>> 16) ∷ u8 (v >>> 8) ∷ u8 v ∷ []) rest))
          (be24_split v h))

-- What a parser returns.
pub value-ok :
    {A : Type 0} {a : A} {s : Reader} {m : Result (A × Reader)} → m ≡ ok (a, s) → value m ≡ ok a
value-ok h = ap value h

pub lift-ok : {A : Type 0} {a : A} {m : Result A} (r : Reader) → m ≡ ok a → lift m r ≡ ok (a, r)
lift-ok r h = ap (λ m. lift m r) h

pub refuse-ok : (b : Bool) (e : Status) (r : Reader) → b ≡ false → refuse b e r ≡ ok (tt, r)
refuse-ok b e r h = ap (λ b. refuse b e r) h

-- The vectors of TLS: the bytes behind their length.
abbrev pub vec8 : Bytes → Bytes
vec8 xs = u8 (length xs) ∷ xs

abbrev pub vec16 : Bytes → Bytes
vec16 xs = u8 (length xs >>> 8) ∷ u8 (length xs) ∷ xs

abbrev pub vec24 : Bytes → Bytes
vec24 xs = u8 (length xs >>> 16) ∷ u8 (length xs >>> 8) ∷ u8 (length xs) ∷ xs

-- A vector is read: its length, then its bytes.
module _ {B : Type 0} {x : Result (B × Reader)} (e e' : Status) (pre xs rest : Bytes)
    (k : Bytes → Parser B) where
  pub read_vec16 :
      length xs < 2 ^ 16
      → k xs (at (pre ++ vec16 xs) rest) ≡ x
      → continue (r_u16 e (at pre (vec16 xs ++ rest))) (λ n. r_bytes e' n >>= k) ≡ x
  read_vec16 h next = step _ (r_u16-at e pre (xs ++ rest) (length xs) h) (
      step _ (r_bytes-at e' (pre ++ u8 (length xs >>> 8) ∷ u8 (length xs) ∷ []) xs rest)
        (rw (append_assoc pre (u8 (length xs >>> 8) ∷ u8 (length xs) ∷ []) xs) next))

  pub read_vec24 :
      length xs < 2 ^ 24
      → k xs (at (pre ++ vec24 xs) rest) ≡ x
      → continue (r_u24 e (at pre (vec24 xs ++ rest))) (λ n. r_bytes e' n >>= k) ≡ x
  read_vec24 h next = step _ (r_u24-at e pre (xs ++ rest) (length xs) h) (
      step _
        (r_bytes-at e' (pre ++ u8 (length xs >>> 16) ∷ u8 (length xs >>> 8) ∷ u8 (length xs) ∷ [])
          xs rest)
        (rw
          (append_assoc pre (u8 (length xs >>> 16) ∷ u8 (length xs >>> 8) ∷ u8 (length xs) ∷ []) xs)
          next))

-- A vector is skipped.
module _ {B : Type 0} {x : Result (B × Reader)} (e e' : Status) (pre xs rest : Bytes)
    (k : Parser B) where
  pub skip_vec8 :
      length xs < 2 ^ 8
      → k (at (pre ++ vec8 xs) rest) ≡ x
      → continue (r_u8 e (at pre (vec8 xs ++ rest))) (λ n. r_skip e' n >> k) ≡ x
  skip_vec8 h next = step _ (r_u8-at e pre (xs ++ rest) (u8 (length xs))) (
      step _ (r_skip-exactly e' (pre ++ u8 (length xs) ∷ []) xs rest (u8 (length xs)) (omega arith))
        (rw (append_assoc pre (u8 (length xs) ∷ []) xs) next))

  pub skip_vec16 :
      length xs < 2 ^ 16
      → k (at (pre ++ vec16 xs) rest) ≡ x
      → continue (r_u16 e (at pre (vec16 xs ++ rest))) (λ n. r_skip e' n >> k) ≡ x
  skip_vec16 h next = step _ (r_u16-at e pre (xs ++ rest) (length xs) h) (
      step _ (r_skip-at e' (pre ++ u8 (length xs >>> 8) ∷ u8 (length xs) ∷ []) xs rest)
        (rw (append_assoc pre (u8 (length xs >>> 8) ∷ u8 (length xs) ∷ []) xs) next))
