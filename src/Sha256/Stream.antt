-- ===== src/Sha256/Stream.antt =====
-- What a context holds after a message, and that `nd_sha256_update` extends the message.
use nano_dtls.Base.{
  ℕ, zero, suc, ◌+◌, ◌-◌, ◌*◌, ◌/◌, ◌%◌, ◌≤◌, ◌<◌, ◌≡◌, refl, sym, ap, ◌∙◌, arith, inl, inr, [],
  ◌∷◌, ◌++◌, min, ◌==◌, Bool-cases,
}
use nano_dtls.Base.{
  Bytes, length, take, drop, u64, length-append, length-take, length-drop, drop-add,
  take-append_drop, take_short, drop-append_short, take-append_short,
}
use mathlib.Core.List.{append_assoc, append-nil}
use mathlib.Core.Path.{ap₂}
use nano_dtls.Sha256.{Ctx, start, block_len, fill_block, update_loop, update}
use nano_dtls.Sha256.Compress.{Words, compress}

-- The hash of the first `n` blocks of a message.
abbrev pub chain : ℕ → Words → Bytes → Words
chain zero h m = h
chain (suc n) h m = chain n (compress h (take block_len m)) (drop block_len m)

-- The context after a message: the hash of its whole blocks, and the bytes behind them.
abbrev pub state_of : Bytes → ℕ → Ctx
state_of m total = record {
  h = chain (length m / 64) start m;
  buf = drop (length m / 64 * 64) m;
  total_len = total;
}

times_suc : (n : ℕ) → suc n * 64 ≡ 64 + n * 64
times_suc n = omega arith

-- What follows the blocks does not count.
chain-append :
    (n : ℕ) (h : Words) (m t : Bytes) → n * 64 ≤ length m → chain n h (m ++ t) ≡ chain n h m
chain-append zero h m t inside = refl
chain-append (suc n) h m t inside =
    ap₂ (λ b r. chain n (compress h b) r) (take-append_short 64 m t (omega arith))
      (drop-append_short 64 m t (omega arith))
    ∙ chain-append n (compress h (take 64 m)) (drop 64 m) t (omega (arith, length-drop 64 m))

-- One block more.
chain_last :
    (n : ℕ) (h : Words) (m : Bytes)
    → chain (suc n) h m ≡ compress (chain n h m) (take 64 (drop (n * 64) m))
chain_last zero h m = refl
chain_last (suc n) h m =
    chain_last n (compress h (take 64 m)) (drop 64 m)
    ∙ ap (λ t. compress (chain (suc n) h m) (take 64 t))
        (sym (drop-add 64 (n * 64) m) ∙ ap (λ k. drop k m) (omega arith))

module _ (m t : Bytes) (total : ℕ) (fits : length m % 64 + length t ≤ 64) where
  full_is : drop (length m / 64 * 64) (m ++ t) ≡ drop (length m / 64 * 64) m ++ t
  full_is = drop-append_short (length m / 64 * 64) m t (omega arith)

  length-full : length (drop (length m / 64 * 64) m ++ t) ≡ length m % 64 + length t
  length-full =
      omega
        (arith, length-append (drop (length m / 64 * 64) m) t, length-drop (length m / 64 * 64) m)

  -- The block is not full.
  part :
      length m % 64 + length t < 64
      → record {
        h = chain (length m / 64) start m;
        buf = drop (length m / 64 * 64) m ++ t;
        total_len = total;
      }
        ≡ state_of (m ++ t) total
  part short =
      let q : ℕ = length m / 64 in
      let same : q ≡ length (m ++ t) / 64 = omega (arith, length-append m t) in
      let hashed : chain q start m ≡ chain (length (m ++ t) / 64) start (m ++ t) =
        sym (chain-append q start m t (omega arith)) ∙ ap (λ k. chain k start (m ++ t)) same in
      let kept : drop (q * 64) m ++ t ≡ drop (length (m ++ t) / 64 * 64) (m ++ t) =
        sym full_is ∙ ap (λ k. drop (k * 64) (m ++ t)) same in
      λ i. record { h = hashed i; buf = kept i; total_len = total }

  -- It is.
  whole :
      length m % 64 + length t ≡ 64
      → record {
        h = compress (chain (length m / 64) start m) (drop (length m / 64 * 64) m ++ t);
        buf = [];
        total_len = total;
      }
        ≡ state_of (m ++ t) total
  whole full =
      let q : ℕ = length m / 64 in
      let next : suc q ≡ length (m ++ t) / 64 = omega (arith, length-append m t) in
      let hashed : compress (chain q start m) (drop (q * 64) m ++ t)
          ≡ chain (length (m ++ t) / 64) start (m ++ t) =
        ap₂ compress (sym (chain-append q start m t (omega arith))) (
          sym ((take_short 64 (drop (q * 64) m ++ t) (omega (arith, length-full))).0)
          ∙ ap (take 64) (sym full_is))
        ∙ sym (chain_last q start (m ++ t))
        ∙ ap (λ k. chain k start (m ++ t)) next in
      let emptied : [] ≡ drop (length (m ++ t) / 64 * 64) (m ++ t) =
        sym (
          (take_short (length (m ++ t) / 64 * 64) (m ++ t) (omega (arith, length-append m t))).1) in
      λ i. record { h = hashed i; buf = emptied i; total_len = total }

fill_block-state_of :
    (n : ℕ) (m d : Bytes) (total : ℕ)
    → n ≤ 64 - length m % 64
    → n ≤ length d
    → fill_block n d (state_of m total) ≡ state_of (m ++ take n d) total
unfolding fill_block
fill_block-state_of n m d total room enough =
    let size : length (take n d) ≡ n = omega (arith, length-take n d) in
    let fits : length m % 64 + length (take n d) ≤ 64 = omega arith in
    let full : ℕ = length (drop (length m / 64 * 64) m ++ take n d) in
    let same : full ≡ length m % 64 + length (take n d) = length-full m (take n d) total fits in
    elim (Bool-cases (full == 64)) [
      | inl e ↦ rw e (whole m (take n d) total fits (ground (arith, same, e)))
      | inr e ↦ rw e (part m (take n d) total fits (ground (arith, same, e)))
    ]

update_loop-state_of :
    (fuel : ℕ) (m d : Bytes) (total : ℕ)
    → length d ≤ fuel
    → update_loop fuel d (state_of m total) ≡ state_of (m ++ d) total
unfolding update_loop
update_loop-state_of fuel m [] total enough = ap (λ t. state_of t total) (sym (append-nil m))
update_loop-state_of zero m (x ∷ xs) total enough = absurd (omega arith)
update_loop-state_of (suc fuel) m (x ∷ xs) total enough =
    let d : Bytes = x ∷ xs in
    let n : ℕ = min (64 - length (drop (length m / 64 * 64) m)) (length d) in
    let left : length (drop (length m / 64 * 64) m) ≡ length m % 64 =
      omega (arith, length-drop (length m / 64 * 64) m) in
    ap (update_loop fuel (drop n d)) (fill_block-state_of n m d total (omega arith) (omega arith))
    ∙ update_loop-state_of fuel (m ++ take n d) (drop n d) total (omega (arith, length-drop n d))
    ∙ ap (λ t. state_of t total)
        (append_assoc m (take n d) (drop n d) ∙ ap (λ t. m ++ t) (take-append_drop n d))

-- A context is known by the message it has taken in: it stays so under more data, cut anywhere.
pub update-state_of :
    (m d : Bytes) (total : ℕ)
    → update (state_of m total) d ≡ state_of (m ++ d) (u64 (total + length d))
unfolding update
update-state_of m d total =
    update_loop-state_of (length d) m d (u64 (total + length d)) (omega arith)
