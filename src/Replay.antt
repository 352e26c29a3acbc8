-- ===== src/Replay.antt =====
-- The anti-replay window, src/replay.c. `w` is updated by returning the new window; sequence
-- numbers and the bitmap are `uint64_t` values.
pub mod History
pub mod Refine
mod Tests
use nano_dtls.Base.{ℕ, ◌-◌, Bool, true, false, not, ltb, leb, ◌==◌, if◌then◌else◌}
use nano_dtls.Base.{bit_or, bit_and, u64, ◌<<<◌, ◌>>>◌}

-- `nd_replay_window`
pub record Window : Type 0 where
  pub highest_seen : ℕ
  pub bitmap : ℕ
  pub has_received_any : Bool

abbrev pub init : Window
init = record { highest_seen = 0; bitmap = 0; has_received_any = false }

unfoldable pub check : Window → ℕ → Bool
check w seq =
    if not w.has_received_any
    then true
    else if ltb w.highest_seen seq
    then true
    else (let diff = w.highest_seen - seq in
        if leb 64 diff then false else bit_and (w.bitmap >>> diff) 1 == 0)

unfoldable pub accept : Window → ℕ → Window
accept w seq =
    if not w.has_received_any
    then record { highest_seen = seq; bitmap = 1; has_received_any = true }
    else if ltb w.highest_seen seq
    then (let shift = seq - w.highest_seen in
        let moved = if leb 64 shift then 0 else u64 (w.bitmap <<< shift) in
        record w { bitmap = bit_or moved 1; highest_seen = seq })
    else (let diff = w.highest_seen - seq in
        if ltb diff 64 then record w { bitmap = bit_or w.bitmap (u64 (1 <<< diff)) } else w)
