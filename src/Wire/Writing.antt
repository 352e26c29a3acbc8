-- ===== src/Wire/Writing.antt =====
-- What the writer has written, unless it ran out of room.
use nano_dtls.Base.{
  ℕ, ◌-◌, ◌≤◌, ◌<◌, ◌≡◌, refl, sym, ap, ◌∙◌, arith, true, false, ◌⊎◌, inl, inr, [], ◌∷◌, ◌++◌, ltb,
  if◌then◌else◌,
}
use nano_dtls.Base.{
  Result, ok, err, Status, Bool-cases, ltb→lt, Bytes, length, write_prefix, write_at, length-append,
  u8, ◌>>>◌, lt→ltb, ltb_of_le,
}
use mathlib.Core.List.{append_assoc, append-nil}
use nano_dtls.Wire.{
  Writer, w_init, w_bytes, w_patch_u8_len, w_patch_u16_len, w_patch_u24_len, sized_u8, sized_u16,
  sized_u24, finish, ◌>>>=◌,
}

-- A writer that was given `content`: it holds it, or it has overflowed for want of room.
abbrev pub Holds : ℕ → Bytes → Writer → Type 0
Holds room content w =
    (w.room ≡ room)
    × (((w.overflow ≡ false) × (length content ≤ room) × (w.buf ≡ content))
        ⊎ ((w.overflow ≡ true) × (room < length content)))

-- A write that appends `bytes`, whatever was written before.
pub record Emits (f : Writer → Writer) (bytes : Bytes) : Type 0 where
  pub appends :
      (room : ℕ) (content : Bytes) (w : Writer)
      → Holds room content w
      → Holds room (content ++ bytes) (f w)

w_bytes-appends :
    (bytes : Bytes) (room : ℕ) (content : Bytes) (w : Writer)
    → Holds room content w
    → Holds room (content ++ bytes) (w_bytes bytes w)
unfolding w_bytes
w_bytes-appends bytes room content w (fixed, inl (fine, fits, same)) =
    ground (arith, length-append content bytes)
w_bytes-appends bytes room content w (fixed, inr (full, over)) =
    ground (arith, length-append content bytes)

pub w_bytes-Emits : (bytes : Bytes) → Emits (w_bytes bytes) bytes
w_bytes-Emits bytes = record { appends = w_bytes-appends bytes }

pub then-Emits :
    {f g : Writer → Writer} {xs ys : Bytes} → Emits f xs → Emits g ys → Emits (f >>>= g) (xs ++ ys)
then-Emits {f} {g} {xs} {ys} hf hg = record {
  appends = λ room content w h.
      rw (sym (append_assoc content xs ys))
        (hg.appends room (content ++ xs) (f w) (hf.appends room content w h));
}

pub nothing-Emits : Emits (λ w. w) []
nothing-Emits = record { appends = λ room content w h. rw (append-nil content) h }

write_prefix-append :
    (old new back : Bytes) → length new ≡ length old → write_prefix (old ++ back) new ≡ new ++ back
write_prefix-append [] [] back h = refl
write_prefix-append [] (y ∷ new) back h = absurd (omega arith)
write_prefix-append (x ∷ old) [] back h = absurd (omega arith)
write_prefix-append (x ∷ old) (y ∷ new) back h =
    ap (λ t. y ∷ t) (write_prefix-append old new back (omega arith))

-- A patch of the bytes `old` behind `front`.
write_at-append :
    (front old new back : Bytes)
    → length new ≡ length old
    → write_at (front ++ (old ++ back)) (length front) new ≡ front ++ (new ++ back)
write_at-append [] old new back h = write_prefix-append old new back h
write_at-append (x ∷ front) old new back h = ap (λ t. x ∷ t) (write_at-append front old new back h)

-- The patches, by the encoding of a length and the bytes it takes.
abbrev patch : (ℕ → Bytes) → ℕ → ℕ → Writer → Writer
patch encode k pos v =
    if v.overflow
    then v
    else record v { buf = write_at v.buf pos (encode (length v.buf - pos - k)) }

module _ (encode : ℕ → Bytes) (gap : Bytes) (fixed_size : (n : ℕ) → length (encode n) ≡ length gap)
    (content xs : Bytes) where
  grown : length ((content ++ gap) ++ xs) ≡ length (content ++ (encode (length xs) ++ xs))
  grown = omega (
    arith,
    length-append (content ++ gap) xs,
    length-append content gap,
    fixed_size (length xs),
    length-append content (encode (length xs) ++ xs),
    length-append (encode (length xs)) xs,
  )

  measured : length ((content ++ gap) ++ xs) - length content - length gap ≡ length xs
  measured = omega (arith, length-append (content ++ gap) xs, length-append content gap)

  patched :
      write_at
        ((content ++ gap) ++ xs)
        (length content)
        (encode (length ((content ++ gap) ++ xs) - length content - length gap))
      ≡ content ++ (encode (length xs) ++ xs)
  patched =
      rw (measured, append_assoc content gap xs)
        (write_at-append content gap (encode (length xs)) xs (fixed_size (length xs)))

  -- What a patch does to a writer behind the gap and the body.
  settle :
      (room : ℕ) (w v : Writer)
      → Holds room content w
      → Holds room ((content ++ gap) ++ xs) v
      → Holds room
          (content ++ (encode (length xs) ++ xs))
          (patch encode (length gap) (length w.buf) v)
  settle room w v h (fixed, inr (full, over)) = rw full (fixed, inr (refl, omega (arith, grown)))
  settle room w v (_, inr (_, short)) (fixed, inl (fine, fits, same)) =
      absurd (omega (arith, length-append (content ++ gap) xs, length-append content gap))
  settle room w v (_, inl (_, _, held)) (fixed, inl (fine, fits, same)) =
      rw fine (fixed, inl (refl, omega (arith, grown), rw (held, same) patched))

patch-Emits :
    (encode : ℕ → Bytes) (gap xs : Bytes) (f : Writer → Writer)
    → ((n : ℕ) → length (encode n) ≡ length gap)
    → Emits f xs
    → Emits
        (λ w. patch encode (length gap) (length w.buf) (f (w_bytes gap w)))
        (encode (length xs) ++ xs)
patch-Emits encode gap xs f fixed_size hf = record {
  appends = λ room content w h.
      settle encode gap fixed_size content xs room w (f (w_bytes gap w)) h
        (hf.appends room (content ++ gap) (w_bytes gap w) (w_bytes-appends gap room content w h));
}

pub sized_u8-Emits :
    {f : Writer → Writer} {xs : Bytes} → Emits f xs → Emits (sized_u8 f) (u8 (length xs) ∷ xs)
unfolding sized_u8 w_patch_u8_len
sized_u8-Emits {f} {xs} hf = patch-Emits (λ n. u8 n ∷ []) (0 ∷ []) xs f (λ n. refl) hf

pub sized_u16-Emits :
    {f : Writer → Writer} {xs : Bytes}
    → Emits f xs
    → Emits (sized_u16 f) (u8 (length xs >>> 8) ∷ u8 (length xs) ∷ xs)
unfolding sized_u16 w_patch_u16_len
sized_u16-Emits {f} {xs} hf =
    patch-Emits (λ n. u8 (n >>> 8) ∷ u8 n ∷ []) (0 ∷ 0 ∷ []) xs f (λ n. refl) hf

pub sized_u24-Emits :
    {f : Writer → Writer} {xs : Bytes}
    → Emits f xs
    → Emits (sized_u24 f) (u8 (length xs >>> 16) ∷ u8 (length xs >>> 8) ∷ u8 (length xs) ∷ xs)
unfolding sized_u24 w_patch_u24_len
sized_u24-Emits {f} {xs} hf =
    patch-Emits (λ n. u8 (n >>> 16) ∷ u8 (n >>> 8) ∷ u8 n ∷ []) (0 ∷ 0 ∷ 0 ∷ []) xs f (λ n. refl) hf

pub finish-Emits :
    {f : Writer → Writer} {xs : Bytes} (room : ℕ) (e : Status)
    → Emits f xs
    → finish e (f (w_init room)) ≡ (if ltb room (length xs) then err e else ok xs)
unfolding finish
finish-Emits {f} {xs} room e hf =
    answer (f (w_init room))
      (hf.appends room [] (w_init room) (refl, inl (refl, omega arith, refl)))
  where
    answer :
        (w : Writer)
        → Holds room xs w
        → finish e w ≡ (if ltb room (length xs) then err e else ok xs)
    answer w (_, inl (fine, fits, same)) = rw (fine, same, ltb_of_le room (length xs) fits) refl
    answer w (_, inr (full, over)) = rw (full, lt→ltb room (length xs) over) refl

-- The two branches of a serializer's answer, with a statement about the message that was written.
pub room_cases :
    (room : ℕ) (e : Status) (xs : Bytes) (m : Result Bytes) (P : Type 0)
    → m ≡ (if ltb room (length xs) then err e else ok xs)
    → P
    → ((room < length xs) × (m ≡ err e)) ⊎ ((length xs ≤ room) × (m ≡ ok xs) × P)
room_cases room e xs m P h holds = split (Bool-cases (ltb room (length xs)))
  where
    split :
        ((ltb room (length xs) ≡ true) ⊎ (ltb room (length xs) ≡ false))
        → ((room < length xs) × (m ≡ err e)) ⊎ ((length xs ≤ room) × (m ≡ ok xs) × P)
    split (inl full) = inl (ltb→lt room (length xs) full, h ∙ rw full refl)
    split (inr fits) = inr (ground (arith, fits), h ∙ rw fits refl, holds)
