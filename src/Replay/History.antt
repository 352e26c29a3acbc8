-- ===== src/Replay/History.antt =====
-- What the window stands for: the sequence numbers accepted so far, the latest first.
use nano_dtls.Base.{ℕ, ◌-◌, ◌≤◌, ◌≡◌, Bool, true, false, not, ◌&&◌, ◌||◌, List, [], ◌∷◌}
use nano_dtls.Base.{ltb, ◌==◌, arith}
use Prim.Native.Nat.{max}
use nano_dtls.Replay.{Window, init, accept}

-- The window after the numbers of a history were accepted.
unfoldable pub run : List ℕ → Window
run [] = init
run (seq ∷ history) = accept (run history) seq

abbrev pub maximum : List ℕ → ℕ
maximum [] = 0
maximum (x ∷ xs) = max x (maximum xs)

abbrev pub seen : List ℕ → ℕ → Bool
seen [] seq = false
seen (x ∷ xs) seq = x == seq || seen xs seq

abbrev pub is_empty : List ℕ → Bool
is_empty [] = true
is_empty (x ∷ xs) = false

-- A number is fresh if it is above all others, or at most 63 below the highest and not seen.
unfoldable pub fresh : List ℕ → ℕ → Bool
fresh history seq =
    is_empty history
    || ltb (maximum history) seq
    || (ltb (maximum history - seq) 64 && not (seen history seq))

pub seen-le-maximum : (history : List ℕ) (seq : ℕ) → seen history seq ≡ true → seq ≤ maximum history
seen-le-maximum [] seq h = ground arith
seen-le-maximum (x ∷ xs) seq h = ground (arith, seen-le-maximum xs seq)
