-- ===== src/Wire.antt =====
-- The byte writer and the byte reader that src/handshake/hello.c and src/handshake/messages.c both
-- define. The writer's `buf` holds the `len` bytes that are written; the reader's is `buf[0 .. len)`.
-- Sizes are those of objects in memory, so a position in a buffer plus the number of bytes of one
-- field does not wrap.
pub mod Writing
pub mod Reading
pub mod Progress
use nano_dtls.Base.{
  ℕ, zero, suc, ◌+◌, ◌-◌, ◌*◌, Bool, true, false, ◌||◌, Option, none, some, [], ◌∷◌, ◌++◌, ltb,
  if◌then◌else◌,
}
use nano_dtls.Base.{
  Bytes, length, get_or, slice, write_at, be16, be24, u8, ◌>>>◌, Result, ok, err, fault, fail_if,
  Status, not, ◌==◌,
}

-- `writer`
pub record Writer : Type 0 where
  pub buf : Bytes
  pub room : ℕ
  pub overflow : Bool

abbrev pub w_init : ℕ → Writer
w_init room = record { buf = []; room = room; overflow = false }

unfoldable pub w_bytes : Bytes → Writer → Writer
w_bytes bytes w =
    if w.overflow || ltb w.room (length w.buf + length bytes)
    then record w { overflow = true }
    else record w { buf = w.buf ++ bytes }

abbrev pub w_u8 : ℕ → Writer → Writer
w_u8 v w = w_bytes (v ∷ []) w

abbrev pub w_u16 : ℕ → Writer → Writer
w_u16 v w = w_bytes (u8 (v >>> 8) ∷ u8 v ∷ []) w

-- `w_patch_u8_len`, `w_patch_u16_len` and `w_patch_u24_len`
unfoldable pub w_patch_u8_len : ℕ → Writer → Writer
w_patch_u8_len pos w =
    let body = length w.buf - pos - 1 in
    if w.overflow then w else record w { buf = write_at w.buf pos (u8 body ∷ []) }

unfoldable pub w_patch_u16_len : ℕ → Writer → Writer
w_patch_u16_len pos w =
    let body = length w.buf - pos - 2 in
    if w.overflow then w else record w { buf = write_at w.buf pos (u8 (body >>> 8) ∷ u8 body ∷ []) }

unfoldable pub w_patch_u24_len : ℕ → Writer → Writer
w_patch_u24_len pos w =
    let body = length w.buf - pos - 3 in
    if w.overflow
    then w
    else record w { buf = write_at w.buf pos (u8 (body >>> 16) ∷ u8 (body >>> 8) ∷ u8 body ∷ []) }

-- A length is reserved, the body written, and the length patched: `w_reserve_*_len` gives the
-- position, which is the length before.
unfoldable pub sized_u8 : (Writer → Writer) → Writer → Writer
sized_u8 body w = w_patch_u8_len (length w.buf) (body (w_u8 0 w))

unfoldable pub sized_u16 : (Writer → Writer) → Writer → Writer
sized_u16 body w = w_patch_u16_len (length w.buf) (body (w_u16 0 w))

unfoldable pub sized_u24 : (Writer → Writer) → Writer → Writer
sized_u24 body w = w_patch_u24_len (length w.buf) (body (w_bytes (0 ∷ 0 ∷ 0 ∷ []) w))

-- What a serializer answers: the bytes that are written, or that they do not fit.
unfoldable pub finish : Status → Writer → Result Bytes
finish e w = if w.overflow then err e else ok w.buf

-- One write after another.
infixl 5 ◌>>>=◌
abbrev pub ◌>>>=◌ : (Writer → Writer) → (Writer → Writer) → Writer → Writer
◌>>>=◌ f g w = g (f w)

-- `reader`
pub record Reader : Type 0 where
  pub buf : Bytes
  pub pos : ℕ

abbrev pub r_init : Bytes → Reader
r_init buf = record { buf = buf; pos = 0 }

-- A step that may fail, with the reader behind it.
abbrev pub Parser : Type 0 → Type 0
Parser A = Reader → Result (A × Reader)

abbrev pub continue : {A B : Type 0} → Result (A × Reader) → (A → Parser B) → Result (B × Reader)
continue (ok (a, r)) f = f a r
continue (err e) f = err e
continue fault f = fault

infixl 5 ◌>>=◌ ◌>>◌
abbrev pub ◌>>=◌ : {A B : Type 0} → Parser A → (A → Parser B) → Parser B
◌>>=◌ p f r = continue (p r) f

abbrev pub ◌>>◌ : {B : Type 0} → Parser (Unit {0}) → Parser B → Parser B
p >> q = p >>= λ _. q

abbrev pub pure : {A : Type 0} → A → Parser A
pure a r = ok (a, r)

-- A step that does not read.
abbrev pub lift : {A : Type 0} → Result A → Parser A
lift (ok a) r = ok (a, r)
lift (err e) r = err e
lift fault r = fault

-- `if (b) return e;`
abbrev pub refuse : Bool → Status → Parser (Unit {0})
refuse b e = lift (fail_if b e)

-- `r.pos == r.len`
abbrev pub at_end : Parser Bool
at_end r = ok (r.pos == length r.buf, r)

-- The value of an outcome, without the reader.
abbrev pub value : {A : Type 0} → Result (A × Reader) → Result A
value (ok (a, r)) = ok a
value (err e) = err e
value fault = fault

-- Runs a parser on a buffer.
abbrev pub run : {A : Type 0} → Bytes → Parser A → Result A
run buf p = value (p (r_init buf))

-- `if (!r_bytes(r, out, n)) return e;`, with the bytes that are read. `r_view` and `r_skip` make the
-- same test; a view is given by the bytes it shows.
unfoldable pub r_bytes : Status → ℕ → Parser Bytes
r_bytes e n r =
    if ltb (length r.buf) (r.pos + n)
    then err e
    else ok (slice r.buf r.pos n, record r { pos = r.pos + n })

unfoldable pub r_skip : Status → ℕ → Parser (Unit {0})
r_skip e n r =
    if ltb (length r.buf) (r.pos + n) then err e else ok (tt, record r { pos = r.pos + n })

unfoldable pub r_u8 : Status → Parser ℕ
r_u8 e = do b ← r_bytes e 1; pure (get_or b 0 0)

unfoldable pub r_u16 : Status → Parser ℕ
r_u16 e = do b ← r_bytes e 2; pure (be16 (get_or b 0 0) (get_or b 1 0))

unfoldable pub r_u24 : Status → Parser ℕ
r_u24 e = do b ← r_bytes e 3; pure (be24 (get_or b 0 0) (get_or b 1 0) (get_or b 2 0))
