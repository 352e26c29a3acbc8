-- ===== src/Record/Reconstruct/Epoch.antt =====
-- What `nd_reconstruct_epoch` recovers.
use nano_dtls.Base.{
  ℕ, ◌+◌, ◌-◌, ◌*◌, ◌/◌, ◌%◌, ◌^◌, ◌≤◌, ◌<◌, ◌≡◌, ◌∙◌, arith, bit_and, bit_and_mask, bit_and_high,
}
use nano_dtls.Base.{◌⊎◌, inl, inr, ap, ltb, if◌then◌else◌, ℤ, pos, negsuc, ◌+ℤ◌, ◌*ℤ◌}
use mathlib.Core.Path.{ap₂}
use native.Mathlib.Decide.{dec_lt}
use nano_dtls.Record.Reconstruct.{EpochBest, epoch_round, to_u16, reconstruct_epoch, distance}

abbrev start : EpochBest
start = record { best = negsuc 0; best_dist = pos 0x7fff_ffff }

-- A round whose candidate is not negative.
round_at :
    (h base t n d : ℕ) (w c : ℤ)
    → pos base +ℤ w *ℤ pos 4 +ℤ pos t ≡ pos n
    → epoch_round h base t w (record { best = c; best_dist = pos d }) ≡ (
        if ltb 0xffff n
        then record { best = c; best_dist = pos d }
        else if ltb (distance n h) d
        then record { best = pos n; best_dist = pos (distance n h) }
        else record { best = c; best_dist = pos d })
unfolding epoch_round
round_at h base t n d w c e = rw e (ground arith)

-- The round with a negative candidate.
round_below : (h t : ℕ) (b : EpochBest) → t < 4 → epoch_round h 0 t (negsuc 0) b ≡ b
unfolding epoch_round
round_below h t b small = ground arith

-- A candidate that is no closer, or too large, is passed over, and a closer one is taken.
round_keeps :
    (h base t n d : ℕ) (w c : ℤ)
    → pos base +ℤ w *ℤ pos 4 +ℤ pos t ≡ pos n
    → d ≤ distance n h
    → epoch_round h base t w (record { best = c; best_dist = pos d })
      ≡ record { best = c; best_dist = pos d }
round_keeps h base t n d w c e far = round_at h base t n d w c e ∙ ground arith

round_takes :
    (h base t n d : ℕ) (w c : ℤ)
    → pos base +ℤ w *ℤ pos 4 +ℤ pos t ≡ pos n
    → n < 2 ^ 16
    → distance n h < d
    → epoch_round h base t w (record { best = c; best_dist = pos d })
      ≡ record { best = pos n; best_dist = pos (distance n h) }
round_takes h base t n d w c e word near = round_at h base t n d w c e ∙ ground arith

candidate_low :
    (base t : ℕ) → 4 ≤ base → pos base +ℤ negsuc 0 *ℤ pos 4 +ℤ pos t ≡ pos (base + t - 4)
candidate_low base t block = ground arith

candidate_mid : (base t : ℕ) → pos base +ℤ pos 0 *ℤ pos 4 +ℤ pos t ≡ pos (base + t)
candidate_mid base t = ground arith

candidate_high : (base t : ℕ) → pos base +ℤ pos 1 *ℤ pos 4 +ℤ pos t ≡ pos (base + t + 4)
candidate_high base t = ground arith

-- The three rounds over the block of four that starts at `base`.
abbrev rounds : ℕ → ℕ → ℕ → EpochBest
rounds h base t =
    epoch_round h base t (pos 1)
      (epoch_round h base t (pos 0) (epoch_round h base t (negsuc 0) start))

-- The first round, from the start: a best candidate that is at least two away.
module _ (h base t : ℕ) (lo : base ≤ h) (hi : h < base + 4) (fits : h < 2 ^ 16)
    (small : t < 4) where
  low_block :
      4 ≤ base
      → epoch_round h base t (negsuc 0) start
        ≡ record { best = pos (base + t - 4); best_dist = pos (distance (base + t - 4) h) }
  low_block block =
      round_takes h base t (base + t - 4) 0x7fff_ffff (negsuc 0) (negsuc 0)
        (candidate_low base t block) (omega arith) (ground arith)

  -- Whatever came before, the middle candidate wins if it is nearer than the low one.
  mid_wins :
      (base ≡ 0) ⊎ ((4 ≤ base) × (distance (base + t) h < distance (base + t - 4) h))
      → base + t < 2 ^ 16
      → epoch_round h base t (pos 0) (epoch_round h base t (negsuc 0) start)
        ≡ record { best = pos (base + t); best_dist = pos (distance (base + t) h) }
  mid_wins (inl first) word = rw (first) (
      ap (epoch_round h 0 t (pos 0)) (round_below h t start small)
      ∙ round_takes h 0 t (0 + t) 0x7fff_ffff (pos 0) (negsuc 0) (candidate_mid 0 t) (omega arith)
          (ground arith))
  mid_wins (inr (block, near)) word =
      ap (epoch_round h base t (pos 0)) (low_block block)
      ∙ round_takes h base t (base + t) (distance (base + t - 4) h) (pos 0) (pos (base + t - 4))
          (candidate_mid base t) word near

  -- The number is in the block below.
  recovered_low : 4 ≤ base → h ≤ base + t - 4 + 2 → (rounds h base t).best ≡ pos (base + t - 4)
  recovered_low block near =
      ap (λ b. (epoch_round h base t (pos 1) (epoch_round h base t (pos 0) b)).best)
        (low_block block)
      ∙ ap (λ b. (epoch_round h base t (pos 1) b).best)
          (round_keeps h base t (base + t) (distance (base + t - 4) h) (pos 0) (pos (base + t - 4))
            (candidate_mid base t) (ground arith))
      ∙ ap (λ b. b.best)
          (round_keeps h base t (base + t + 4) (distance (base + t - 4) h) (pos 1)
            (pos (base + t - 4)) (candidate_high base t) (ground arith))

  -- It is in the block of `h`.
  recovered_mid :
      h ≤ base + t + 2
      → base + t ≤ h + 1
      → (base ≡ 0) ⊎ (4 ≤ base)
      → base + t < 2 ^ 16
      → (rounds h base t).best ≡ pos (base + t)
  recovered_mid below above place word =
      ap (λ b. (epoch_round h base t (pos 1) b).best) (mid_wins (nearer place) word)
      ∙ ap (λ b. b.best)
          (round_keeps h base t (base + t + 4) (distance (base + t) h) (pos 1) (pos (base + t))
            (candidate_high base t) (ground arith))
    where
      nearer :
          (base ≡ 0) ⊎ (4 ≤ base)
          → (base ≡ 0) ⊎ ((4 ≤ base) × (distance (base + t) h < distance (base + t - 4) h))
      nearer (inl z) = inl z
      nearer (inr block) = inr (block, ground arith)

  -- It is in the block above.
  recovered_high :
      base + t + 4 ≤ h + 1
      → (base ≡ 0) ⊎ (4 ≤ base)
      → base + t + 4 < 2 ^ 16
      → (rounds h base t).best ≡ pos (base + t + 4)
  recovered_high near place word =
      ap (λ b. (epoch_round h base t (pos 1) b).best) (mid_wins (nearer place) (omega arith))
      ∙ ap (λ b. b.best)
          (round_takes h base t (base + t + 4) (distance (base + t) h) (pos 1) (pos (base + t))
            (candidate_high base t) word (ground arith))
    where
      nearer :
          (base ≡ 0) ⊎ (4 ≤ base)
          → (base ≡ 0) ⊎ ((4 ≤ base) × (distance (base + t) h < distance (base + t - 4) h))
      nearer (inl z) = inl z
      nearer (inr block) = inr (block, ground arith)

block_base : (h : ℕ) → h < 2 ^ 16 → bit_and h 0xffff_fffc ≡ h / 4 * 4
block_base h fits = bit_and_high 2 30 h ∙ omega arith

-- The three places of an epoch that is within reach.
recovered :
    (h base e : ℕ)
    → base ≤ h
    → h < base + 4
    → base % 4 ≡ 0
    → h < 2 ^ 16
    → e < 2 ^ 16
    → h ≤ e + 2
    → e ≤ h + 1
    → (rounds h base (e % 4)).best ≡ pos e
recovered h base e lo hi whole fits word below above =
    let small : e % 4 < 4 = omega arith in
    let place : (base ≡ 0) ⊎ (4 ≤ base) = omega arith in
    elim (dec_lt e base) [
      | yes lower ↦
          recovered_low h base (e % 4) lo hi fits small (omega arith) (omega arith)
          ∙ ap pos (omega arith)
      | no other ↦ elim (dec_lt e (base + 4)) [
        | yes same ↦
            recovered_mid h base (e % 4) lo hi fits small (omega arith) (omega arith) place
              (omega arith)
            ∙ ap pos (omega arith)
        | no upper ↦
            recovered_high h base (e % 4) lo hi fits small (omega arith) place (omega arith)
            ∙ ap pos (omega arith)
      ]
    ]

reconstruct-rounds :
    (h w : ℕ) → h < 2 ^ 16 → reconstruct_epoch h w ≡ to_u16 (rounds h (h / 4 * 4) (w % 4)).best
unfolding reconstruct_epoch
reconstruct-rounds h w fits =
    ap₂ (λ base t. to_u16 (rounds h base t).best) (block_base h fits) (bit_and_mask 2 w)

-- The epoch is recovered from its two low bits, if it is at most two behind the highest known
-- epoch and at most one ahead of it.
pub reconstruct_epoch_recovers :
    (highest epoch : ℕ)
    → highest < 2 ^ 16
    → epoch < 2 ^ 16
    → highest ≤ epoch + 2
    → epoch ≤ highest + 1
    → reconstruct_epoch highest (epoch % 4) ≡ epoch
reconstruct_epoch_recovers highest epoch fits word below above =
    reconstruct-rounds highest (epoch % 4) fits
    ∙ ap (λ t. to_u16 (rounds highest (highest / 4 * 4) t).best) (omega arith)
    ∙ ap to_u16 (
        recovered highest (highest / 4 * 4) epoch (omega arith) (omega arith) (omega arith) fits
          word below above)
    ∙ omega arith
