-- ===== src/Hkdf/Label.antt =====
-- `nd_hkdf_expand_label`: when it succeeds, and that the label it hashes keeps its parts apart.
use nano_dtls.Base.{ℕ, ◌+◌, ◌*◌, ◌≤◌, ◌≡◌, refl, sym, ap, ◌∙◌, arith, ◌∷◌, ◌++◌, u8}
use nano_dtls.Base.{Bytes, length, take, drop, length-append, take-append, drop_behind, get_or, ok}
use mathlib.Core.List.{append_assoc}
use nano_dtls.Hkdf.{hash_len, label_max, context_max, hkdf_label, expand_label}
use nano_dtls.Hkdf.Stream.{output, expand-ok}

-- What the caller may pass.
abbrev pub Fits : Bytes → Bytes → Bytes → ℕ → Type 0
Fits label_prefix label context out_len =
    (length label_prefix + length label ≤ label_max)
    × (length context ≤ context_max)
    × (out_len ≤ 255 * hash_len)

length-hkdf_label :
    (label_prefix label context : Bytes) (out_len : ℕ)
    → length (hkdf_label label_prefix label context out_len)
      ≡ 4 + (length label_prefix + length label) + length context
length-hkdf_label label_prefix label context out_len = omega (
  arith,
  length-append label_prefix (label ++ u8 (length context) ∷ context),
  length-append label (u8 (length context) ∷ context),
)

pub expand_label-ok :
    (secret label_prefix label context : Bytes) (out_len : ℕ)
    → Fits label_prefix label context out_len
    → expand_label secret label_prefix label context out_len
      ≡ ok (output secret (hkdf_label label_prefix label context out_len) out_len)
unfolding expand_label
expand_label-ok secret label_prefix label context out_len (short, small, few) = ground (
  arith,
  expand-ok secret (hkdf_label label_prefix label context out_len) out_len,
  length-hkdf_label label_prefix label context out_len,
)

-- Two labels that are hashed the same have the same output length, the same name and the same
-- context, if both fit.
pub hkdf_label-injective :
    (a b c a' b' c' : Bytes) (n n' : ℕ)
    → Fits a b c n
    → Fits a' b' c' n'
    → hkdf_label a b c n ≡ hkdf_label a' b' c' n'
    → (n ≡ n') × (a ++ b ≡ a' ++ b') × (c ≡ c')
hkdf_label-injective a b c a' b' c' n n' (short, small, few) (short', small', few') h =
    let size : length (a ++ b) ≡ length (a' ++ b') =
      omega (arith, length-append a b, length-append a' b', ap (λ t. get_or t 2 0) h) in
    let tails : (a ++ b) ++ (u8 (length c) ∷ c) ≡ (a' ++ b') ++ (u8 (length c') ∷ c') =
      append_assoc a b (u8 (length c) ∷ c)
      ∙ ap (drop 3) h
      ∙ sym (append_assoc a' b' (u8 (length c') ∷ c')) in
    (
      omega (arith, ap (λ t. get_or t 0 0) h, ap (λ t. get_or t 1 0) h),
      sym (take-append (a ++ b) (u8 (length c) ∷ c))
          ∙ (λ i. take (size i) (tails i))
          ∙ take-append (a' ++ b') (u8 (length c') ∷ c'),
      sym (drop_behind (a ++ b) (u8 (length c) ∷ c) (length (a ++ b) + 1) 1 refl)
          ∙ (λ i. drop (size i + 1) (tails i))
          ∙ drop_behind (a' ++ b') (u8 (length c') ∷ c') (length (a' ++ b') + 1) 1 refl,
    )
