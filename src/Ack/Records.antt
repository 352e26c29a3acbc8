-- ===== src/Ack/Records.antt =====
-- The records of an ACK, written and read one after another.
use nano_dtls.Base.{
  ℕ, zero, suc, ◌+◌, ◌*◌, ◌^◌, ◌≤◌, ◌<◌, ◌≡◌, refl, sym, ap, ◌∙◌, arith, List, [], ◌∷◌, ◌++◌,
}
use nano_dtls.Base.{
  IsBytes-drop, Bytes, IsBytes, length, take, drop, take-add, drop-add, length-drop,
}
use nano_dtls.Base.{ok}
use mathlib.Core.Path.{ap₂}
use mathlib.Core.List.{append_assoc}
use nano_dtls.Ack.{RecordNumber, put_u64, put_records, get_records}
use nano_dtls.Ack.Words.{get_u64-put_u64, get_u64_reads, u64_at, put_u64-u64_at}

-- Both numbers of each record are `uint64_t` values.
abbrev pub AllWords : List RecordNumber → Type 0
AllWords [] = Unit {0}
AllWords (r ∷ rs) = (r.epoch < 2 ^ 64) × (r.sequence_number < 2 ^ 64) × AllWords rs

length-put_u64 : (v : ℕ) (rest : Bytes) → length (put_u64 v ++ rest) ≡ 8 + length rest
unfolding put_u64
length-put_u64 v rest = omega arith

pub length-put_records : (rs : List RecordNumber) → length (put_records rs) ≡ length rs * 16
unfolding put_records
length-put_records [] = refl
length-put_records (r ∷ rs) = omega (
  arith,
  length-put_u64 r.epoch (put_u64 r.sequence_number ++ put_records rs),
  length-put_u64 r.sequence_number (put_records rs),
  length-put_records rs,
)

drop-put_u64 : (v : ℕ) (rest : Bytes) → drop 8 (put_u64 v ++ rest) ≡ rest
unfolding put_u64
drop-put_u64 v rest = refl

pub get_records-put_records :
    (rs : List RecordNumber) (buf rest : Bytes) (pos : ℕ)
    → AllWords rs
    → drop pos buf ≡ put_records rs ++ rest
    → get_records buf (length rs) pos ≡ ok rs
unfolding get_records put_records
get_records-put_records [] buf rest pos words at = refl
get_records-put_records (r ∷ rs) buf rest pos words at =
    let later : Bytes = put_records rs ++ rest in
    let first : drop pos buf ≡ put_u64 r.epoch ++ (put_u64 r.sequence_number ++ later) =
      at ∙ simp append_assoc in
    let second : drop (pos + 8) buf ≡ put_u64 r.sequence_number ++ later =
      drop-add pos 8 buf
      ∙ ap (drop 8) first
      ∙ drop-put_u64 r.epoch (put_u64 r.sequence_number ++ later) in
    let third : drop (pos + 16) buf ≡ later =
      ap (λ k. drop k buf) (omega arith)
      ∙ drop-add (pos + 8) 8 buf
      ∙ ap (drop 8) second
      ∙ drop-put_u64 r.sequence_number later in
    rw
      (
        first,
        get_u64-put_u64 r.epoch (put_u64 r.sequence_number ++ later) words.0,
        second,
        get_u64-put_u64 r.sequence_number later words.1,
        get_records-put_records rs buf rest (pos + 16) words.2 third,
      )
      refl

-- The records that a buffer holds from `pos` on.
abbrev pub records_at : Bytes → ℕ → ℕ → List RecordNumber
records_at buf zero pos = []
records_at buf (suc left) pos =
    record { epoch = u64_at (drop pos buf); sequence_number = u64_at (drop (pos + 8) buf) }
    ∷ records_at buf left (pos + 16)

pub length-records_at : (buf : Bytes) (left pos : ℕ) → length (records_at buf left pos) ≡ left
length-records_at buf zero pos = refl
length-records_at buf (suc left) pos = ap suc (length-records_at buf left (pos + 16))

pub get_records_reads :
    (buf : Bytes) (left pos : ℕ)
    → pos + left * 16 ≤ length buf
    → get_records buf left pos ≡ ok (records_at buf left pos)
unfolding get_records
get_records_reads buf zero pos h = refl
get_records_reads buf (suc left) pos h =
    rw
      (
        get_u64_reads (drop pos buf) (omega (arith, length-drop pos buf)),
        get_u64_reads (drop (pos + 8) buf) (omega (arith, length-drop (pos + 8) buf)),
        get_records_reads buf left (pos + 16) (omega arith),
      )
      refl

pub put_records-records_at :
    (buf : Bytes) (left pos : ℕ)
    → IsBytes buf
    → pos + left * 16 ≤ length buf
    → put_records (records_at buf left pos) ≡ take (left * 16) (drop pos buf)
unfolding put_records
put_records-records_at buf zero pos bytes h = refl
put_records-records_at buf (suc left) pos bytes h =
    let rest : Bytes = drop pos buf in
    let eight : drop (pos + 8) buf ≡ drop 8 rest = drop-add pos 8 buf in
    let sixteen : drop (pos + 16) buf ≡ drop 8 (drop 8 rest) =
      ap (λ k. drop k buf) (omega arith) ∙ drop-add (pos + 8) 8 buf ∙ ap (drop 8) eight in
    let cut : take (suc left * 16) rest
        ≡ take 8 rest ++ (take 8 (drop 8 rest) ++ take (left * 16) (drop 8 (drop 8 rest))) =
      ap (λ k. take k rest) (omega arith)
      ∙ take-add 8 (8 + left * 16) rest
      ∙ ap (λ t. take 8 rest ++ t) (take-add 8 (left * 16) (drop 8 rest)) in
    let high : put_u64 (u64_at rest) ≡ take 8 rest =
      put_u64-u64_at rest (IsBytes-drop pos buf bytes) (omega (arith, length-drop pos buf)) in
    let low : put_u64 (u64_at (drop (pos + 8) buf)) ≡ take 8 (drop 8 rest) =
      put_u64-u64_at (drop (pos + 8) buf) (IsBytes-drop (pos + 8) buf bytes)
        (omega (arith, length-drop (pos + 8) buf))
      ∙ ap (take 8) eight in
    let later : put_records (records_at buf left (pos + 16))
        ≡ take (left * 16) (drop 8 (drop 8 rest)) =
      put_records-records_at buf left (pos + 16) bytes (omega arith)
      ∙ ap (take (left * 16)) sixteen in
    ap₂ ◌++◌ high (ap₂ ◌++◌ low later) ∙ sym cut
