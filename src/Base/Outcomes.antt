-- ===== src/Base/Outcomes.antt =====
-- What a C function of the library returns: `ND_OK` with its outputs, an error of `nd_status`, or
-- the fault of an access outside an array, which C leaves undefined.
use mathlib.Core.Path.{◌≡◌, refl, ap, ◌∙◌}
use mathlib.Core.Logic.{◌≢◌}
use native.Mathlib.Omega.{arith}
use mathlib.Core.Bool.{Bool, true, false}

-- The errors of `nd_status`.
pub data Status : Type 0 where
  truncated bad_length not_unified bad_arg auth_failed unsupported : Status

pub data Result {ℓ} (A : Type ℓ) : Type ℓ where
  ok : A → Result A
  err : Status → Result A
  fault : Result A

infixl 5 ◌>>=◌ ◌>>◌
abbrev pub ◌>>=◌ {ℓ κ} : {A : Type ℓ} {B : Type κ} → Result A → (A → Result B) → Result B
ok a >>= f = f a
err e >>= f = err e
fault >>= f = fault

abbrev pub ◌>>◌ {ℓ} : {B : Type ℓ} → Result (Unit {0}) → Result B → Result B
m >> k = m >>= λ _. k

-- `if (b) return e;`
abbrev pub fail_if : Bool → Status → Result (Unit {0})
fail_if true e = err e
fail_if false e = ok tt

-- A chain that returns has returned at each of its steps.
pub bind-ok {ℓ κ} :
    {A : Type ℓ} {B : Type κ} (m : Result A) (f : A → Result B) (b : B)
    → (m >>= f) ≡ ok b
    → (a : A) × (m ≡ ok a) × (f a ≡ ok b)
bind-ok (ok a) f b h = (a, refl, h)
bind-ok (err e) f b h = absurd (ground (arith, h))
bind-ok fault f b h = absurd (ground (arith, h))

-- What was returned.
abbrev from_ok {ℓ} : {A : Type ℓ} → A → Result A → A
from_ok d (ok a) = a
from_ok d (err e) = d
from_ok d fault = d

pub ok-injective {ℓ} : {A : Type ℓ} (a b : A) → ok a ≡ ok b → a ≡ b
ok-injective a b h = ap (from_ok a) h

-- What holds of every error, and of what follows each value, holds of a chain that does not fault.
pub bind-all {ℓ κ μ} :
    {A : Type ℓ} {B : Type κ} (P : Result B → Type μ) (m : Result A) (f : A → Result B)
    → m ≢ fault
    → ((e : Status) → P (err e))
    → ((a : A) → m ≡ ok a → P (f a))
    → P (m >>= f)
bind-all P (ok a) f defined fails returns = returns a refl
bind-all P (err e) f defined fails returns = fails e
bind-all P fault f defined fails returns = absurd (defined refl)

-- What holds of a guard's error, and of what follows the guard where its test fails.
pub guard-all {ℓ κ} :
    {B : Type ℓ} (P : Result B → Type κ) (b : Bool) (e : Status) (k : Result B)
    → P (err e)
    → (b ≡ false → P k)
    → P (fail_if b e >> k)
guard-all P true e k fails passes = fails
guard-all P false e k fails passes = passes refl

-- The value of a step is passed on, and the next steps are computed with it.
pub bind-returns {ℓ κ} :
    {A : Type ℓ} {B : Type κ} {m : Result A} {a : A} {r : Result B} (f : A → Result B)
    → m ≡ ok a
    → f a ≡ r
    → (m >>= f) ≡ r
bind-returns f e h = ap (λ m. m >>= f) e ∙ h
