-- ===== src/Record/Reconstruct.antt =====
-- `nd_reconstruct_epoch` and `nd_reconstruct_sequence_number` of src/record.c: the full counter
-- from its low bits, as the candidate that is closest to a known value.
pub mod Epoch
pub mod Sequence
mod Tests
use nano_dtls.Base.{ℕ, ◌+◌, ◌-◌, ◌^◌, Bool, ◌||◌, ltb, if◌then◌else◌, bit_and, u16, u64, ◌<<<◌}
use nano_dtls.Base.{ℤ, pos, negsuc, pos_part, ◌+ℤ◌, ◌-ℤ◌, ◌*ℤ◌, ltb_ℤ}

-- `best` and `best_dist` of the first loop.
pub record EpochBest : Type 0 where
  pub best : ℤ
  pub best_dist : ℤ

-- One round of the loop over `w`.
unfoldable pub epoch_round : ℕ → ℕ → ℕ → ℤ → EpochBest → EpochBest
epoch_round highest base low2 w b =
    let candidate = pos base +ℤ w *ℤ pos 4 +ℤ pos low2 in
    if ltb_ℤ candidate (pos 0) || ltb_ℤ (pos 0xffff) candidate
    then b
    else (let diff = candidate -ℤ pos highest in
        let dist = if ltb_ℤ diff (pos 0) then pos 0 -ℤ diff else diff in
        if ltb_ℤ dist b.best_dist then record { best = candidate; best_dist = dist } else b)

-- `(uint16_t)best`
abbrev pub to_u16 : ℤ → ℕ
to_u16 (pos n) = u16 n
to_u16 (negsuc n) = u16 (2 ^ 16 - 1 - u16 n)

unfoldable pub reconstruct_epoch : ℕ → ℕ → ℕ
reconstruct_epoch highest_known_epoch wire_low2 =
    let low2 = bit_and wire_low2 3 in
    let base = bit_and highest_known_epoch 0xffff_fffc in
    let round = epoch_round highest_known_epoch base low2 in
    let start : EpochBest = record { best = negsuc 0; best_dist = pos 0x7fff_ffff } in
    to_u16 (round (pos 1) (round (pos 0) (round (negsuc 0) start))).best

-- `best` and `best_dist` of the second loop.
pub record SequenceBest : Type 0 where
  pub best : ℕ
  pub best_dist : ℕ

-- The distance of two `uint64_t` values.
abbrev pub distance : ℕ → ℕ → ℕ
distance a b = if ltb b a then a - b else b - a

-- `(int64_t)n`
abbrev pub to_i64 : ℕ → ℤ
to_i64 n = if ltb n (2 ^ 63) then pos n else negsuc (2 ^ 64 - 1 - n)

-- The rest of a round, once the candidate is computed.
unfoldable pub consider : ℕ → ℤ → SequenceBest → SequenceBest
consider highest candidate b =
    if ltb_ℤ candidate (pos 0) || ltb_ℤ (pos 0xffff_ffff_ffff) candidate
    then b
    else (let ucandidate = pos_part candidate in
        let dist = distance ucandidate highest in
        if ltb dist b.best_dist then record { best = ucandidate; best_dist = dist } else b)

-- One round of the loop over `w`.
unfoldable pub sequence_round : ℕ → ℕ → ℕ → ℕ → ℤ → SequenceBest → SequenceBest
sequence_round highest base win truncated w b =
    consider highest (to_i64 base +ℤ w *ℤ to_i64 win +ℤ to_i64 truncated) b

unfoldable pub reconstruct_sequence_number : ℕ → ℕ → ℕ → ℕ
reconstruct_sequence_number highest_known_sequence wire_value wire_bits =
    let win = u64 (1 <<< wire_bits) in
    let mask = win - 1 in
    let base = bit_and highest_known_sequence (2 ^ 64 - 1 - mask) in
    let truncated = bit_and wire_value mask in
    let best = u64 (base + truncated) in
    let round = sequence_round highest_known_sequence base win truncated in
    let start : SequenceBest = record {
      best = best;
      best_dist = distance best highest_known_sequence;
    } in
    (round (pos 1) (round (negsuc 0) start)).best
