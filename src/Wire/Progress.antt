-- ===== src/Wire/Progress.antt =====
-- That the reader's steps return, stay in their buffer and go forward.
use nano_dtls.Base.{ℕ, ◌+◌, ◌≤◌, ◌<◌, ◌≡◌, ◌≢◌, refl, ◌∙◌, arith, Bool, true, false, ltb}
use nano_dtls.Base.{
  if◌then◌else◌, slice, length, get_or, be16, be24, Result, ok, err, fault, Status, ltb→lt,
}
use nano_dtls.Wire.{
  Reader, Parser, ◌>>=◌, continue, pure, lift, refuse, value, r_bytes, r_skip, r_u8, r_u16, r_u24,
}

-- An outcome at the reader `r`: no fault, and what is returned lies `n` bytes further at least, in
-- the same buffer.
abbrev pub Moves : {A : Type 0} → ℕ → Reader → Result (A × Reader) → Type 0
Moves n r (ok (a, s)) = (s.buf ≡ r.buf) × (r.pos + n ≤ s.pos)
Moves n r (err e) = Unit
Moves n r fault = ⊥

pub bind-Moves :
    {A B : Type 0} (n m k : ℕ) (r : Reader) (p : Parser A) (f : A → Parser B)
    → Moves n r (p r)
    → k ≤ n + m
    → ((a : A) (s : Reader) → s.buf ≡ r.buf → r.pos + n ≤ s.pos → Moves m s (f a s))
    → Moves k r ((p >>= f) r)
bind-Moves {A} {B} n m k r p f first enough next = follow (p r) first
  where
    pass :
        (s : Reader)
        → s.buf ≡ r.buf
        → r.pos + n ≤ s.pos
        → (x : Result (B × Reader)) → Moves m s x
        → Moves k r x
    pass s same far (ok (b, t)) (same', far') = (same' ∙ same, omega arith)
    pass s same far (err e) h = tt
    pass s same far fault h = h

    follow : (x : Result (A × Reader)) → Moves n r x → Moves k r (continue x f)
    follow (ok (a, s)) (same, far) = pass s same far (f a s) (next a s same far)
    follow (err e) h = tt
    follow fault h = h

-- The same, where only the first step's progress counts.
pub then-Moves :
    {A B : Type 0} (n : ℕ) (r : Reader) (x : Result (A × Reader)) (f : A → Parser B)
    → Moves n r x
    → ((a : A) (s : Reader) → s.buf ≡ r.buf → r.pos + n ≤ s.pos → Moves 0 s (f a s))
    → Moves 0 r (continue x f)
then-Moves n r x f first next = bind-Moves n 0 0 r (λ _. x) f first (omega arith) next

pub if-Moves :
    {A : Type 0} (r : Reader) (b : Bool) (x y : Result (A × Reader))
    → Moves 0 r x
    → Moves 0 r y
    → Moves 0 r (if b then x else y)
if-Moves r true x y h g = h
if-Moves r false x y h g = g

-- A round of a loop, which is run where the reader is not at the end.
pub round-Moves :
    {A : Type 0} (r : Reader) (x : Result (A × Reader)) (a : A)
    → (r.pos < length r.buf → Moves 0 r x)
    → Moves 0 r (if ltb r.pos (length r.buf) then x else ok (a, r))
round-Moves r x a step = split (ltb r.pos (length r.buf)) (ltb→lt r.pos (length r.buf))
  where
    split : (b : Bool) → (b ≡ true → r.pos < length r.buf) → Moves 0 r (if b then x else ok (a, r))
    split true inside = step (inside refl)
    split false inside = (refl, omega arith)

-- An outcome that moves is no fault.
pub value-returns :
    {A : Type 0} (n : ℕ) (r : Reader) (x : Result (A × Reader)) → Moves n r x → value x ≢ fault
value-returns n r (ok (a, s)) h same = absurd (ground (arith, same))
value-returns n r (err e) h same = absurd (ground (arith, same))
value-returns n r fault h same = h

pub pure-Moves : {A : Type 0} (a : A) (r : Reader) → Moves 0 r (pure a r)
pure-Moves a r = (refl, omega arith)

-- A read of `n` bytes, behind its test.
guarded :
    {A : Type 0} (b : Bool) (e : Status) (n : ℕ) (a : A) (r : Reader)
    → Moves n r (if b then err e else ok (a, record r { pos = r.pos + n }))
guarded true e n a r = tt
guarded false e n a r = (refl, omega arith)

pub r_bytes-Moves : (e : Status) (n : ℕ) (r : Reader) → Moves n r (r_bytes e n r)
unfolding r_bytes
r_bytes-Moves e n r = guarded (ltb (length r.buf) (r.pos + n)) e n (slice r.buf r.pos n) r

pub r_skip-Moves : (e : Status) (n : ℕ) (r : Reader) → Moves n r (r_skip e n r)
unfolding r_skip
r_skip-Moves e n r = guarded (ltb (length r.buf) (r.pos + n)) e n tt r

pub r_u16-Moves : (e : Status) (r : Reader) → Moves 2 r (r_u16 e r)
unfolding r_u16
r_u16-Moves e r =
    bind-Moves 2 0 2 r (r_bytes e 2) (λ b. pure (be16 (get_or b 0 0) (get_or b 1 0)))
      (r_bytes-Moves e 2 r) (omega arith)
      (λ b s _ _. pure-Moves (be16 (get_or b 0 0) (get_or b 1 0)) s)

pub r_u24-Moves : (e : Status) (r : Reader) → Moves 3 r (r_u24 e r)
unfolding r_u24
r_u24-Moves e r =
    bind-Moves 3 0 3 r (r_bytes e 3) (λ b. pure (be24 (get_or b 0 0) (get_or b 1 0) (get_or b 2 0)))
      (r_bytes-Moves e 3 r) (omega arith)
      (λ b s _ _. pure-Moves (be24 (get_or b 0 0) (get_or b 1 0) (get_or b 2 0)) s)

pub r_u8-Moves : (e : Status) (r : Reader) → Moves 1 r (r_u8 e r)
unfolding r_u8
r_u8-Moves e r =
    bind-Moves 1 0 1 r (r_bytes e 1) (λ b. pure (get_or b 0 0)) (r_bytes-Moves e 1 r) (omega arith)
      (λ b s _ _. pure-Moves (get_or b 0 0) s)

pub refuse-Moves : (b : Bool) (e : Status) (r : Reader) → Moves 0 r (refuse b e r)
refuse-Moves false e r = (refl, omega arith)
refuse-Moves true e r = tt

pub lift-Moves : {A : Type 0} (m : Result A) (r : Reader) → m ≢ fault → Moves 0 r (lift m r)
lift-Moves (ok a) r h = (refl, omega arith)
lift-Moves (err e) r h = tt
lift-Moves fault r h = absurd (h refl)
