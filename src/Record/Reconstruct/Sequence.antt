-- ===== src/Record/Reconstruct/Sequence.antt =====
-- What `nd_reconstruct_sequence_number` recovers.
use nano_dtls.Base.{
  ℕ, ◌+◌, ◌-◌, ◌*◌, ◌/◌, ◌%◌, ◌^◌, ◌≤◌, ◌<◌, ◌≡◌, ◌∙◌, ap, ◌⊎◌, inl, inr, arith, bit_and_mask,
  bit_and_high,
}
use nano_dtls.Base.{ℤ, pos, negsuc, u64, ◌+ℤ◌, ◌*ℤ◌}
use native.Mathlib.Nat.{mod-eq_of_lt}
use mathlib.Core.Path.{ap₂}
use nano_dtls.Record.Reconstruct.{
  SequenceBest, consider, sequence_round, distance, to_i64, reconstruct_sequence_number,
}

consider_far :
    (h n d c : ℕ)
    → d ≤ distance n h
    → consider h (pos n) (record { best = c; best_dist = d }) ≡ record { best = c; best_dist = d }
unfolding consider
consider_far h n d c far = ground arith

consider_negative : (h n : ℕ) (b : SequenceBest) → consider h (negsuc n) b ≡ b
unfolding consider
consider_negative h n b = ground arith

consider_near :
    (h n d c : ℕ)
    → n < 2 ^ 48
    → distance n h < d
    → consider h (pos n) (record { best = c; best_dist = d })
      ≡ record { best = n; best_dist = distance n h }
unfolding consider
consider_near h n d c word near = ground arith

module _ (h base win t d c : ℕ) (w : ℤ) where
  -- A candidate that is negative, no closer, or too large is passed over.
  keeps :
      (n : ℕ)
      → to_i64 base +ℤ w *ℤ to_i64 win +ℤ to_i64 t ≡ pos n
      → d ≤ distance n h
      → sequence_round h base win t w (record { best = c; best_dist = d })
        ≡ record { best = c; best_dist = d }
  unfolding sequence_round
  keeps n e far = rw e (consider_far h n d c far)

  keeps_negative :
      (n : ℕ)
      → to_i64 base +ℤ w *ℤ to_i64 win +ℤ to_i64 t ≡ negsuc n
      → sequence_round h base win t w (record { best = c; best_dist = d })
        ≡ record { best = c; best_dist = d }
  unfolding sequence_round
  keeps_negative n e = rw e (consider_negative h n (record { best = c; best_dist = d }))

  -- A closer one is taken.
  takes :
      (n : ℕ)
      → to_i64 base +ℤ w *ℤ to_i64 win +ℤ to_i64 t ≡ pos n
      → n < 2 ^ 48
      → distance n h < d
      → sequence_round h base win t w (record { best = c; best_dist = d })
        ≡ record { best = n; best_dist = distance n h }
  unfolding sequence_round
  takes n e word near = rw e (consider_near h n d c word near)

-- The loop from the start.
abbrev rounds : ℕ → ℕ → ℕ → ℕ → SequenceBest
rounds h base win t = sequence_round h base win t (pos 1) (
    sequence_round h base win t (negsuc 0)
      (record { best = base + t; best_dist = distance (base + t) h }))

module _ (h base win t : ℕ) (lo : base ≤ h) (hi : h < base + win) (word : h < 2 ^ 48)
    (width : win ≤ 2 ^ 16) (small : t < win) where
  candidate_low :
      win ≤ base → to_i64 base +ℤ negsuc 0 *ℤ to_i64 win +ℤ to_i64 t ≡ pos (base + t - win)
  candidate_low block = ground arith

  candidate_negative :
      base ≡ 0 → to_i64 base +ℤ negsuc 0 *ℤ to_i64 win +ℤ to_i64 t ≡ negsuc (win - t - 1)
  candidate_negative first = ground arith

  candidate_high : to_i64 base +ℤ pos 1 *ℤ to_i64 win +ℤ to_i64 t ≡ pos (base + t + win)
  candidate_high = ground arith

  low_keeps :
      (base ≡ 0) ⊎ (win ≤ base)
      → distance (base + t) h ≤ h + win - base - t
      → sequence_round h base win t
          (negsuc 0)
          (record { best = base + t; best_dist = distance (base + t) h })
        ≡ record { best = base + t; best_dist = distance (base + t) h }
  low_keeps (inl first) far =
      keeps_negative h base win t (distance (base + t) h) (base + t) (negsuc 0) (win - t - 1)
        (candidate_negative first)
  low_keeps (inr block) far =
      keeps h base win t (distance (base + t) h) (base + t) (negsuc 0) (base + t - win)
        (candidate_low block) (ground arith)

  recovered_low :
      win ≤ base → 2 * h < 2 * (base + t - win) + win → (rounds h base win t).best ≡ base + t - win
  recovered_low block near =
      ap (λ b. (sequence_round h base win t (pos 1) b).best)
        (takes h base win t (distance (base + t) h) (base + t) (negsuc 0) (base + t - win)
          (candidate_low block) (omega arith) (ground arith))
      ∙ ap (λ b. b.best)
          (keeps h base win t (distance (base + t - win) h) (base + t - win) (pos 1)
            (base + t + win) candidate_high (ground arith))

  recovered_mid :
      2 * h < 2 * (base + t) + win
      → 2 * (base + t) < 2 * h + win
      → (base ≡ 0) ⊎ (win ≤ base)
      → (rounds h base win t).best ≡ base + t
  recovered_mid below above place =
      ap (λ b. (sequence_round h base win t (pos 1) b).best) (low_keeps place (ground arith))
      ∙ ap (λ b. b.best)
          (keeps h base win t (distance (base + t) h) (base + t) (pos 1) (base + t + win)
            candidate_high (ground arith))

  recovered_high :
      2 * (base + t + win) < 2 * h + win
      → (base ≡ 0) ⊎ (win ≤ base)
      → base + t + win < 2 ^ 48
      → (rounds h base win t).best ≡ base + t + win
  recovered_high near place fits =
      ap (λ b. (sequence_round h base win t (pos 1) b).best) (low_keeps place (ground arith))
      ∙ ap (λ b. b.best)
          (takes h base win t (distance (base + t) h) (base + t) (pos 1) (base + t + win)
            candidate_high fits (ground arith))

  -- The three places of a number that is less than half a window away.
  pub recovered :
      (s : ℕ)
      → (base ≡ 0) ⊎ (win ≤ base)
      → (s + win ≡ base + t) ⊎ (s ≡ base + t) ⊎ (s ≡ base + t + win)
      → 2 * h < 2 * s + win
      → 2 * s < 2 * h + win
      → s < 2 ^ 48
      → (rounds h base win t).best ≡ s
  recovered s place (inl lower) below above fits =
      recovered_low (omega arith) (omega arith) ∙ omega arith
  recovered s place (inr (inl same)) below above fits =
      recovered_mid (omega arith) (omega arith) place ∙ omega arith
  recovered s place (inr (inr upper)) below above fits =
      recovered_high (omega arith) place (omega arith) ∙ omega arith

-- The loop from a start `b`.
abbrev rounds_from : ℕ → ℕ → ℕ → ℕ → ℕ → SequenceBest
rounds_from h base win t b =
    sequence_round h base win t (pos 1)
      (sequence_round h base win t (negsuc 0) (record { best = b; best_dist = distance b h }))

-- What the masks leave at each of the two widths.
at_8 :
    (h wire : ℕ)
    → h < 2 ^ 48
    → reconstruct_sequence_number h wire 8 ≡ (rounds h (h / 256 * 256) 256 (wire % 256)).best
unfolding reconstruct_sequence_number
at_8 h wire word =
    ap₂ (λ base t. (rounds_from h base 256 t (u64 (base + t))).best)
      (bit_and_high 8 56 h ∙ omega arith) (bit_and_mask 8 wire)
    ∙ ap (λ b. (rounds_from h (h / 256 * 256) 256 (wire % 256) b).best) (mod-eq_of_lt (omega arith))

at_16 :
    (h wire : ℕ)
    → h < 2 ^ 48
    → reconstruct_sequence_number h wire 16
      ≡ (rounds h (h / 65536 * 65536) 65536 (wire % 65536)).best
unfolding reconstruct_sequence_number
at_16 h wire word =
    ap₂ (λ base t. (rounds_from h base 65536 t (u64 (base + t))).best)
      (bit_and_high 16 48 h ∙ omega arith) (bit_and_mask 16 wire)
    ∙ ap (λ b. (rounds_from h (h / 65536 * 65536) 65536 (wire % 65536) b).best)
        (mod-eq_of_lt (omega arith))

recovers_8 :
    (h s : ℕ)
    → h < 2 ^ 48
    → s < 2 ^ 48
    → 2 * h < 2 * s + 2 ^ 8
    → 2 * s < 2 * h + 2 ^ 8
    → reconstruct_sequence_number h (s % 2 ^ 8) 8 ≡ s
recovers_8 h s word fits below above =
    at_8 h (s % 256) word
    ∙ ap (λ t. (rounds h (h / 256 * 256) 256 t).best) (omega arith)
    ∙ recovered h (h / 256 * 256) 256 (s % 256) (omega arith) (omega arith) word (omega arith)
        (omega arith) s (omega arith) (omega arith) below above fits

recovers_16 :
    (h s : ℕ)
    → h < 2 ^ 48
    → s < 2 ^ 48
    → 2 * h < 2 * s + 2 ^ 16
    → 2 * s < 2 * h + 2 ^ 16
    → reconstruct_sequence_number h (s % 2 ^ 16) 16 ≡ s
recovers_16 h s word fits below above =
    at_16 h (s % 65536) word
    ∙ ap (λ t. (rounds h (h / 65536 * 65536) 65536 t).best) (omega arith)
    ∙ recovered h (h / 65536 * 65536) 65536 (s % 65536) (omega arith) (omega arith) word
        (omega arith) (omega arith) s (omega arith) (omega arith) below above fits

-- The sequence number is recovered from its low 8 or 16 bits, if it is less than half a window,
-- 128 or 32768, away from the highest number known.
pub reconstruct_sequence_recovers :
    (highest sequence bits : ℕ)
    → (bits ≡ 8) ⊎ (bits ≡ 16)
    → highest < 2 ^ 48
    → sequence < 2 ^ 48
    → 2 * highest < 2 * sequence + 2 ^ bits
    → 2 * sequence < 2 * highest + 2 ^ bits
    → reconstruct_sequence_number highest (sequence % 2 ^ bits) bits ≡ sequence
reconstruct_sequence_recovers highest sequence bits (inl narrow) word fits =
    rw narrow (recovers_8 highest sequence word fits)
reconstruct_sequence_recovers highest sequence bits (inr wide) word fits =
    rw wide (recovers_16 highest sequence word fits)
