-- ===== src/Net/Done.antt =====
-- A chain of steps that is done was done at each of them.
use nano_dtls.Base.{◌≡◌, ◌⊎◌, inl, inr, refl, ap, Status, arith, Result, ok, err, fault}
use nano_dtls.Net.{Net, Run, done, failed, broke, Step, follow, ◌>>=◌, lift, retry}

pub step-done {ℓ κ} :
    {A : Type ℓ} {B : Type κ} (m : Step A) (f : A → Step B) (n n' : Net) (b : B)
    → (m >>= f) n ≡ done b n'
    → (a : A) × (n1 : Net) × (m n ≡ done a n1) × (f a n1 ≡ done b n')
step-done {A = A} {B} m f n n' b h = of_run (m n) refl h
  where
    of_run :
        (r : Run A)
        → m n ≡ r
        → follow r f ≡ done b n'
        → (a : A) × (n1 : Net) × (m n ≡ done a n1) × (f a n1 ≡ done b n')
    of_run (done a n1) e h = (a, n1, e, h)
    of_run (failed s n1) e h = absurd (ground (arith, h))
    of_run broke e h = absurd (ground (arith, h))

-- A call that does not touch the world has returned, and the chain goes on in the same world.
pub lift-done {ℓ κ} :
    {A : Type ℓ} {B : Type κ} (m : Result A) (f : A → Step B) (n n' : Net) (b : B)
    → (lift m >>= f) n ≡ done b n'
    → (a : A) × (m ≡ ok a) × (f a n ≡ done b n')
lift-done (ok a) f n n' b h = (a, refl, h)
lift-done (err e) f n n' b h = absurd (ground (arith, h))
lift-done fault f n n' b h = absurd (ground (arith, h))

pub lift-returned {ℓ} :
    {A : Type ℓ} (m : Result A) (n n' : Net) (a : A) → lift m n ≡ done a n' → m ≡ ok a
lift-returned (ok a) n n' b h = ground (arith, h)
lift-returned (err e) n n' b h = absurd (ground (arith, h))
lift-returned fault n n' b h = absurd (ground (arith, h))

-- A call that may be retried is done itself, or what follows its failure is.
pub retry-done {ℓ} :
    {A : Type ℓ} (r : Run A) (otherwise : Status → Step A) (a : A) (n' : Net)
    → retry r otherwise ≡ done a n'
    → (r ≡ done a n') ⊎ ((e : Status) × (n : Net) × (r ≡ failed e n) × (otherwise e n ≡ done a n'))
retry-done (done b n) otherwise a n' h = inl h
retry-done (failed e n) otherwise a n' h = inr (e, n, refl, h)
retry-done broke otherwise a n' h = absurd (ground (arith, h))

abbrev from_done {ℓ} : {A : Type ℓ} → A → Run A → A
from_done d (done a n) = a
from_done d (failed e n) = d
from_done d broke = d

pub done-injective {ℓ} : {A : Type ℓ} (a b : A) (n n' : Net) → done a n ≡ done b n' → a ≡ b
done-injective a b n n' h = ap (from_done a) h
