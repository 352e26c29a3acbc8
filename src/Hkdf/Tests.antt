-- ===== src/Hkdf/Tests.antt =====
-- Labels and expansion at concrete values.
use nano_dtls.Base.{ℕ, ◌≡◌, refl, arith, [], ◌∷◌, ◌++◌, Bytes, replicate, err, bad_arg}
use nano_dtls.Hkdf.{expand}
use nano_dtls.Hkdf.Stream.{Expands, expand_branches}
use nano_dtls.Hkdf.Label.{hkdf_label-injective}

expand_refuses : expand [] (replicate 201 0) 32 ≡ err bad_arg
unfolding expand
expand_refuses = refl

expand_branches_example : Expands (replicate 32 1) (2 ∷ []) 40 (expand (replicate 32 1) (2 ∷ []) 40)
expand_branches_example = expand_branches (replicate 32 1) (2 ∷ []) 40

abbrev short : Bytes
short = 1 ∷ []

abbrev long : Bytes
long = 1 ∷ 2 ∷ []

abbrev behind_short : Bytes
behind_short = 2 ∷ 3 ∷ []

abbrev behind_long : Bytes
behind_long = 3 ∷ []

abbrev size : ℕ
size = 16

-- The prefix and the name are not kept apart, and need not be.
hkdf_label-injective_example :
    (size ≡ size) × (short ++ behind_short ≡ long ++ behind_long) × (behind_long ≡ behind_long)
hkdf_label-injective_example =
    hkdf_label-injective short behind_short behind_long long behind_long behind_long size size
      (omega arith, omega arith, omega arith) (omega arith, omega arith, omega arith) refl
