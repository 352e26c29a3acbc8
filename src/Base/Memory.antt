-- ===== src/Base/Memory.antt =====
-- `memcpy` and `memset` on arrays, with the fault of a range that is not inside them.
use Prim.Native.Nat.{ℕ, zero, suc, ◌+◌, ◌-◌, ◌≤◌, ◌<◌}
use Prim.Native.Nat.add
use mathlib.Core.Path.{◌≡◌, refl, ap, ◌∙◌, sym}
use mathlib.Core.Bool.{◌&&◌}
use mathlib.Core.List.{[], ◌∷◌}
use native.Mathlib.Omega.{arith}
use nano_dtls.Base.Tests.{leb, ltb, if◌then◌else◌}
use nano_dtls.Base.Lists.{length, get_or, take, drop, replicate, write_prefix, write_at}
use nano_dtls.Base.Outcomes.{Result, ok, fault}
use nano_dtls.Base.Buffers.{Bytes}

-- The first `n` bytes that a pointer shows.
unfoldable pub read_bytes : Bytes → ℕ → Result Bytes
read_bytes src n = if leb n (length src) then ok (take n src) else fault

-- `memcpy(dst + at, src, |src|)`
unfoldable pub copy_into : Bytes → ℕ → Bytes → Result Bytes
copy_into dst at src =
    if leb (at + length src) (length dst) then ok (write_at dst at src) else fault

-- `memset(dst + at, v, n)`
unfoldable pub fill : Bytes → ℕ → ℕ → ℕ → Result Bytes
unfolding copy_into
fill dst at v n = copy_into dst at (replicate n v)

get_or-write_prefix :
    (xs ys : Bytes) (i : ℕ)
    → length ys ≤ length xs
    → get_or (write_prefix xs ys) i 0 ≡ (if ltb i (length ys) then get_or ys i 0 else get_or xs i 0)
get_or-write_prefix xs [] i h = ground arith
get_or-write_prefix [] (y ∷ ys) i h = absurd (omega arith)
get_or-write_prefix (x ∷ xs) (y ∷ ys) zero h = ground arith
get_or-write_prefix (x ∷ xs) (y ∷ ys) (suc i) h =
    ground (arith, get_or-write_prefix xs ys i (omega arith))

-- What a copy inside the array leaves at index `i`.
pub get_or-write_at :
    (xs : Bytes) (at : ℕ) (ys : Bytes) (i : ℕ)
    → at + length ys ≤ length xs
    → get_or (write_at xs at ys) i 0
      ≡ (if leb at i && ltb i (at + length ys) then get_or ys (i - at) 0 else get_or xs i 0)
get_or-write_at xs zero ys i h = ground (arith, get_or-write_prefix xs ys i)
get_or-write_at [] (suc a) ys i h = absurd (omega arith)
get_or-write_at (x ∷ xs) (suc a) ys zero h = ground arith
get_or-write_at (x ∷ xs) (suc a) ys (suc i) h =
    ground (arith, get_or-write_at xs a ys i (omega arith))

pub get_or-replicate : (n a i : ℕ) → i < n → get_or (replicate n a) i 0 ≡ a
get_or-replicate zero a i h = absurd (omega arith)
get_or-replicate (suc n) a zero h = refl
get_or-replicate (suc n) a (suc i) h = get_or-replicate n a i (omega arith)

pub get_or-drop : (n i : ℕ) (xs : Bytes) → get_or (drop n xs) i 0 ≡ get_or xs (n + i) 0
get_or-drop zero i xs = ap (λ k. get_or xs k 0) (omega arith)
get_or-drop (suc n) i [] = refl
get_or-drop (suc n) i (x ∷ xs) =
    get_or-drop n i xs ∙ ap (λ k. get_or (x ∷ xs) k 0) (sym (add.suc n i))

pub write_at-nil : (xs : Bytes) (i : ℕ) → write_at xs i [] ≡ xs
write_at-nil xs zero = refl
write_at-nil [] (suc i) = refl
write_at-nil (x ∷ xs) (suc i) = ap (λ t. x ∷ t) (write_at-nil xs i)

pub take-take_self : (n : ℕ) (xs : Bytes) → take n (take n xs) ≡ take n xs
take-take_self zero xs = refl
take-take_self (suc n) [] = refl
take-take_self (suc n) (x ∷ xs) = ap (λ t. x ∷ t) (take-take_self n xs)
