-- ===== src/Replay/Tests.antt =====
-- The anti-replay window on a stream that is reordered, repeated and has gaps.
use nano_dtls.Base.{ℕ, ◌≡◌, refl, true, false, [], ◌∷◌, List, arith}
use nano_dtls.Replay.{check, accept}
use nano_dtls.Replay.History.{run, fresh}
use nano_dtls.Replay.Refine.{check_refines, replay_rejected, IsWords, accept-IsWords}

-- 5, then 3, then 100, then 40.
abbrev stream : List ℕ
stream = 40 ∷ 100 ∷ 3 ∷ 5 ∷ []

window_runs :
    (check (run stream) 100 ≡ false)
    × (check (run stream) 40 ≡ false)
    × (check (run stream) 41 ≡ true)
    × (check (run stream) 36 ≡ false)
    × (check (run stream) 101 ≡ true)
unfolding run check accept
window_runs = (refl, refl, refl, refl, refl)

check_refines_example : check (run stream) 37 ≡ fresh stream 37
check_refines_example = check_refines stream 37

replay_rejected_example : check (run stream) 3 ≡ false
replay_rejected_example = replay_rejected stream 3 refl

accept-IsWords_example :
    IsWords (accept (record { highest_seen = 5; bitmap = 3; has_received_any = true }) 70)
accept-IsWords_example =
    accept-IsWords (record { highest_seen = 5; bitmap = 3; has_received_any = true }) 70
      (omega arith) (omega arith)
