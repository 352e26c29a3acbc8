-- ===== src/Replay/Refine.antt =====
-- The window answers as the whole history would, though it keeps 64 bits of it.
use nano_dtls.Base.{ℕ, ◌-◌, ◌≤◌, ◌<◌, ◌≡◌, ◌∙◌, true, false, not, ◌&&◌, ◌||◌, List, [], ◌∷◌}
use nano_dtls.Base.{
  ltb, leb, ◌==◌, if◌then◌else◌, arith, bit, bit-bit_or, bit-shift, bit-one, bit-mod, u64, ◌<<<◌,
  bit-zero, bit_or, bit_or-lt, ◌^◌,
}
use native.Mathlib.Decide.{dec_lt}
use nano_dtls.Base.{bit_and_mask, ◌>>>◌, refl}
use nano_dtls.Replay.{Window, init, check, accept}
use nano_dtls.Replay.History.{run, maximum, seen, is_empty, fresh, seen-le-maximum}

-- Digit `i` of the bitmap, as the history has it.
abbrev expected : List ℕ → ℕ → ℕ
expected history i = if leb i (maximum history) && seen history (maximum history - i) then 1 else 0

pub record Tracks (history : List ℕ) (w : Window) : Type 0 where
  pub received : w.has_received_any ≡ not (is_empty history)
  pub highest : w.highest_seen ≡ maximum history
  pub digits :
      (i : ℕ) → i < 64 → not (is_empty history) ≡ true → bit i w.bitmap ≡ expected history i

expected-head :
    (seq : ℕ) (history : List ℕ) (i : ℕ)
    → seq ≤ maximum history
    → expected (seq ∷ history) i ≡ (
        if leb i (maximum history)
          && (seq == maximum history - i || seen history (maximum history - i))
        then 1
        else 0)
expected-head seq history i h = ground arith

-- The first number accepted.
Tracks-first : (seq : ℕ) → Tracks (seq ∷ []) (accept init seq)
unfolding accept
Tracks-first seq = record {
  received = ground arith;
  highest = ground arith;
  digits = λ i h r. ground (arith, bit-one i);
}

-- Digit `i` of the bitmap that was moved up by `shift`.
bit-moved :
    (b shift i : ℕ)
    → i < 64
    → bit i (if leb 64 shift then 0 else u64 (b <<< shift))
      ≡ (if ltb i shift then 0 else bit (i - shift) b)
bit-moved b shift i h =
    ground (arith, bit-zero i, bit-mod i 64 (b <<< shift) h, bit-shift i shift b)

-- The mask of the digit at `diff`.
bit-mask : (diff i : ℕ) → i < 64 → bit i (u64 (1 <<< diff)) ≡ (if i == diff then 1 else 0)
bit-mask diff i h =
    ground (arith, bit-mod i 64 (1 <<< diff) h, bit-shift i diff 1, bit-one (i - diff))

-- `history` is not empty in these two, and `w` is at its window.
module _ (seq last : ℕ) (older : List ℕ) (w : Window) (t : Tracks (last ∷ older) w) where
  abbrev history : List ℕ
  history = last ∷ older

  digits_above :
      maximum history < seq
      → (i : ℕ) → i < 64
      → bit i (
          bit_or
            (if leb 64 (seq - maximum history)
              then 0
              else u64 (w.bitmap <<< (seq - maximum history)))
            1)
        ≡ expected (seq ∷ history) i
  digits_above above i h = ground (
    arith,
    bit-bit_or i
        (if leb 64 (seq - maximum history) then 0 else u64 (w.bitmap <<< (seq - maximum history)))
        1,
    bit-moved w.bitmap (seq - maximum history) i h,
    bit-one i,
    t.digits (i - (seq - maximum history)),
    seen-le-maximum history (seq - i),
  )

  digits_below :
      seq ≤ maximum history
      → (i : ℕ) → i < 64
      → bit i (bit_or w.bitmap (u64 (1 <<< (maximum history - seq)))) ≡ expected (seq ∷ history) i
  digits_below below i h = ground (
    arith,
    bit-bit_or i w.bitmap (u64 (1 <<< (maximum history - seq))),
    bit-mask (maximum history - seq) i h,
    t.digits i h,
  )

  -- A number above all before it: the bitmap moves up, and gets a low one.
  Tracks-above : maximum history < seq → Tracks (seq ∷ history) (accept w seq)
  unfolding accept
  Tracks-above above = record {
    received = ground (arith, t.received);
    highest = ground (arith, t.received, t.highest);
    digits = λ i h r. ground (arith, t.received, t.highest, digits_above above i h);
  }

  -- One not above: its digit is set, if it is in reach.
  Tracks-below : seq ≤ maximum history → Tracks (seq ∷ history) (accept w seq)
  unfolding accept
  Tracks-below below = record {
    received = ground (arith, t.received);
    highest = ground (arith, t.received, t.highest);
    digits = λ i h r. ground (arith, t.received, t.highest, t.digits i h, digits_below below i h);
  }

Tracks-next :
    (seq : ℕ) (history : List ℕ)
    → Tracks history (run history)
    → Tracks (seq ∷ history) (run (seq ∷ history))
unfolding run
Tracks-next seq [] t = Tracks-first seq
Tracks-next seq (last ∷ older) t = elim (dec_lt (maximum (last ∷ older)) seq) [
  | yes above ↦ Tracks-above seq last older (run (last ∷ older)) t above
  | no below ↦ Tracks-below seq last older (run (last ∷ older)) t (omega arith)
]

Tracks-init : Tracks [] (run [])
unfolding run
Tracks-init = record { received = refl; highest = refl; digits = λ i h r. cc }

run-Tracks : (history : List ℕ) → Tracks history (run history)
run-Tracks [] = Tracks-init
run-Tracks (seq ∷ history) = Tracks-next seq history (run-Tracks history)

check-Tracks :
    (history : List ℕ) (w : Window) (seq : ℕ) → Tracks history w → check w seq ≡ fresh history seq
unfolding check fresh
check-Tracks [] w seq t = ground (arith, t.received)
check-Tracks (last ∷ older) w seq t = ground (
  arith,
  t.received,
  t.highest,
  bit_and_mask 1 (w.bitmap >>> (w.highest_seen - seq)),
  t.digits (w.highest_seen - seq),
)

fresh-seen : (history : List ℕ) (seq : ℕ) → seen history seq ≡ true → fresh history seq ≡ false
unfolding fresh
fresh-seen [] seq h = cc
fresh-seen (x ∷ xs) seq h = ground (arith, seen-le-maximum (x ∷ xs) seq h)

-- After any sequence of accepted numbers, in any order and with repeats, the 64-bit window gives
-- the answer that the whole history gives: a number passes exactly when none was accepted before,
-- or it is above all of them, or it is at most 63 below the highest and is not among them.
pub check_refines : (history : List ℕ) (seq : ℕ) → check (run history) seq ≡ fresh history seq
check_refines history seq = check-Tracks history (run history) seq (run-Tracks history)

-- A number that was accepted never passes again, whatever was accepted after it.
pub replay_rejected :
    (history : List ℕ) (seq : ℕ) → seen history seq ≡ true → check (run history) seq ≡ false
replay_rejected history seq h = check_refines history seq ∙ fresh-seen history seq h

-- Where both words are in range they stay so: no `uint64_t` is left by `nd_replay_window_accept`.
pub record IsWords (w : Window) : Type 0 where
  pub highest_word : w.highest_seen < 2 ^ 64
  pub bitmap_word : w.bitmap < 2 ^ 64

pub accept-IsWords : (w : Window) (seq : ℕ) → IsWords w → seq < 2 ^ 64 → IsWords (accept w seq)
unfolding accept
accept-IsWords w seq v h = record {
  highest_word = ground (arith, v.highest_word);
  bitmap_word = ground (
    arith,
    v.bitmap_word,
    bit_or-lt 64
        (if leb 64 (seq - w.highest_seen) then 0 else u64 (w.bitmap <<< (seq - w.highest_seen))) 1,
    bit_or-lt 64 w.bitmap (u64 (1 <<< (w.highest_seen - seq))),
  );
}
