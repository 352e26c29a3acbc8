-- ===== src/Poly1305/Begin.antt =====
-- The context of `nd_poly1305_init`: the clamped key as limbs.
use nano_dtls.Base.{
  ℕ, zero, suc, ◌+◌, ◌*◌, ◌<◌, ◌≡◌, refl, ap, sym, ◌∙◌, arith, [], ◌∷◌, ◌++◌, Bytes, IsBytes,
  IsBytes-append, IsBytes-take, length, length-append, length-take, get_or, get_or_behind, gets,
  take, write_at, length-write_at, take-eq-gets, take_short, bit_and, bit_and_mask, bit_and_high,
}
use nano_dtls.Poly1305.{mask_at, clamp_r, init}
use nano_dtls.Poly1305.Multiply.{value}
use nano_dtls.Poly1305.Load.{number, bytes_to_limbs-Loaded}
use nano_dtls.Poly1305.Mac.{Between}

-- The key is 16 bytes after the masks of `clamp_r`.
IsBytes-write : (xs : Bytes) (i v : ℕ) → IsBytes xs → v < 256 → IsBytes (write_at xs i (v ∷ []))
IsBytes-write [] zero v h k = h
IsBytes-write [] (suc i) v h k = h
IsBytes-write (x ∷ []) zero v h k = (k, h.1)
IsBytes-write (x ∷ y ∷ xs) zero v h k = (k, h.1)
IsBytes-write (x ∷ xs) (suc i) v h k = (h.0, IsBytes-write xs i v h.1 k)

mask_15 : (i : ℕ) (r : Bytes) → IsBytes r → IsBytes (mask_at i 15 r)
mask_15 i r h =
    IsBytes-write r i (bit_and (get_or r i 0) 15) h (omega (arith, bit_and_mask 4 (get_or r i 0)))

mask_252 : (i : ℕ) (r : Bytes) → IsBytes r → IsBytes (mask_at i 252 r)
mask_252 i r h =
    IsBytes-write r i (bit_and (get_or r i 0) 252) h
      (omega (arith, bit_and_high 2 6 (get_or r i 0)))

clamp_r-IsBytes : (r : Bytes) → IsBytes r → IsBytes (clamp_r r)
unfolding clamp_r
clamp_r-IsBytes r h =
    mask_252 12 _
      (mask_252 8 _ (mask_252 4 _ (mask_15 15 _ (mask_15 11 _ (mask_15 7 _ (mask_15 3 r h))))))

length-mask : (i mask n : ℕ) (r : Bytes) → length r ≡ n → length (mask_at i mask r) ≡ n
length-mask i mask n r h = length-write_at r i (bit_and (get_or r i 0) mask ∷ []) ∙ h

length-clamp_r : (r : Bytes) → length r ≡ 16 → length (clamp_r r) ≡ 16
unfolding clamp_r
length-clamp_r r h = length-mask 12 252 16 _ (
    length-mask 8 252 16 _ (
      length-mask 4 252 16 _ (
        length-mask 15 15 16 _
          (length-mask 11 15 16 _ (length-mask 7 15 16 _ (length-mask 3 15 16 r h))))))

number-behind : (xs : Bytes) → number (xs ++ 0 ∷ []) ≡ number xs
number-behind [] = refl
number-behind (x ∷ xs) = ap (λ (v : ℕ). x + 256 * v) (number-behind xs)

-- `nd_poly1305_init`
pub init-Between :
    (key : Bytes)
    → IsBytes key
    → length key ≡ 32
    → Between (init key) × (value (init key).r ≡ number (clamp_r (take 16 key)))
unfolding init
init-Between key bytes size =
    let clamped : Bytes = clamp_r (take 16 key) in
    let small = clamp_r-IsBytes (take 16 key) (IsBytes-take 16 key bytes) in
    let long : length clamped ≡ 16 =
      length-clamp_r (take 16 key) (omega (arith, length-take 16 key)) in
    let total : length (clamped ++ 0 ∷ []) ≡ 17 = length-append clamped (0 ∷ []) ∙ omega arith in
    let loaded =
      bytes_to_limbs-Loaded (clamped ++ 0 ∷ [])
        (IsBytes-append clamped (0 ∷ []) small (omega arith, tt))
        (omega (arith, get_or_behind clamped (0 ∷ []) 0 16 0 (omega arith))) in
    let t0 = loaded.t0 in
    let t1 = loaded.t1 in
    let t2 = loaded.t2 in
    let t3 = loaded.t3 in
    let t4 = loaded.t4 in
    let shown : gets 17 0 (clamped ++ 0 ∷ []) ≡ clamped ++ 0 ∷ [] =
      sym (take-eq-gets 17 (clamped ++ 0 ∷ []) (omega arith))
      ∙ (take_short 17 (clamped ++ 0 ∷ []) (omega arith)).0 in
    (
      record {
        fives_of = refl;
        key = record {
          k0 = omega arith;
          k1 = omega arith;
          k2 = omega arith;
          k3 = omega arith;
          k4 = omega arith;
        };
        carried = record {
          c0 = omega arith;
          c1 = omega arith;
          c2 = omega arith;
          c3 = omega arith;
          c4 = omega arith;
        };
      },
      loaded.whole ∙ ap number shown ∙ number-behind clamped,
    )
