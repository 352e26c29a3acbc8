-- ===== src/Reassembly/Message.antt =====
-- Fragments of one message, in any order, with gaps, overlaps and repeats.
use nano_dtls.Base.{ℕ, zero, suc, ◌+◌, ◌≤◌, ◌<◌, ◌≡◌, refl, ap, ◌∙◌, true, false, arith}
use nano_dtls.Base.{List, [], ◌∷◌}
use nano_dtls.Base.{Bytes, length, get_or-take, get_or_ext, take}
use nano_dtls.Base.{length-take, byte_at_in}
use nano_dtls.Base.{ok}
use native.Mathlib.Decide.{dec_lt}
use nano_dtls.Reassembly.Valid.{IsValid}
use nano_dtls.Reassembly.{Reassembly, max_len, all_received, is_complete}
use nano_dtls.Reassembly.Pieces.{
  Piece, AllInside, covers, covers_all, deliver, Holds, stored, entered, stored-Holds, add-Holds,
  add_first, entered-Holds,
}

module _ (msg_type message_seq : ℕ) (message : Bytes) where
  deliver-Holds :
      (r : Reassembly) (p : Piece) (ps : List Piece)
      → length message ≤ max_len
      → IsValid r
      → r.in_progress ≡ false
      → AllInside (length message) (p ∷ ps)
      → (r' : Reassembly) × (deliver msg_type message_seq message r (p ∷ ps) ≡ ok r')
        × Holds msg_type message_seq message (p ∷ ps) r'
  unfolding deliver
  deliver-Holds r p [] fits v idle inside = (
    stored msg_type message_seq message (entered msg_type message_seq message r) p,
    add_first msg_type message_seq message p r fits inside.0 v idle,
    stored-Holds msg_type message_seq message [] p (entered msg_type message_seq message r) fits
        inside.0 (entered-Holds msg_type message_seq message r fits v),
  )
  deliver-Holds r p (q ∷ ps) fits v idle inside =
      let (r', reached, h) = deliver-Holds r q ps fits v idle inside.1 in
      (
        stored msg_type message_seq message r' p,
        rw reached (add-Holds msg_type message_seq message (q ∷ ps) p r' fits inside.0 h),
        stored-Holds msg_type message_seq message (q ∷ ps) p r' fits inside.0 h,
      )

  all_received-Holds :
      (ps : List Piece) (r : Reassembly) (left i : ℕ)
      → length message ≤ max_len
      → i + left ≤ length message
      → Holds msg_type message_seq message ps r
      → all_received r.received left i ≡ ok (covers_all ps left i)
  unfolding all_received
  all_received-Holds ps r zero i fits inside h = refl
  all_received-Holds ps r (suc left) i fits inside h = ground (
    arith,
    h.received_size,
    byte_at_in r.received i,
    h.marks i (omega arith),
    all_received-Holds ps r left (i + 1) fits (omega arith) h,
  )

  is_complete-Holds :
      (ps : List Piece) (r : Reassembly)
      → length message ≤ max_len
      → Holds msg_type message_seq message ps r
      → is_complete r ≡ ok (covers_all ps (length message) 0)
  unfolding is_complete
  is_complete-Holds ps r fits h = ground (
    arith,
    h.started,
    h.known,
    h.same_len,
    all_received-Holds ps r (length message) 0 fits (omega arith) h,
  )

-- When the pieces cover every index, each index is covered.
covered_at :
    (ps : List Piece) (left i k : ℕ)
    → covers_all ps left i ≡ true
    → i ≤ k
    → k < i + left
    → covers ps k ≡ true
covered_at ps zero i k h lo hi = absurd (omega arith)
covered_at ps (suc left) i k h lo hi = elim (dec_lt i k) [
  | yes later ↦ covered_at ps left (i + 1) k (ground arith) (omega arith) (omega arith)
  | no here ↦ let e : k ≡ i = omega arith in rw e (ground arith)
]

content-Holds :
    (msg_type message_seq : ℕ) (message : Bytes) (ps : List Piece) (r : Reassembly)
    → length message ≤ max_len
    → Holds msg_type message_seq message ps r
    → covers_all ps (length message) 0 ≡ true
    → take r.total_len r.buf ≡ message
content-Holds msg_type message_seq message ps r fits h covered =
    get_or_ext 0 (take r.total_len r.buf) message
      (omega (arith, length-take r.total_len r.buf, h.same_len, h.buf_size))
      (λ i lt.
        let inside : i < length message =
          omega (arith, length-take r.total_len r.buf, h.same_len) in
        get_or-take r.buf r.total_len i 0 (rw h.same_len inside)
        ∙ h.content i inside
            (covered_at ps (length message) 0 i covered (omega arith) (omega arith)))

-- A message is reassembled from any pieces of it, in any order and with gaps, overlaps and
-- repeats: every fragment is accepted, and the message counts as complete exactly when the pieces
-- cover it.
pub reassembly_completes :
    (msg_type message_seq : ℕ) (message : Bytes) (r : Reassembly) (p : Piece) (ps : List Piece)
    → length message ≤ max_len
    → IsValid r
    → r.in_progress ≡ false
    → AllInside (length message) (p ∷ ps)
    → (r' : Reassembly) × (deliver msg_type message_seq message r (p ∷ ps) ≡ ok r')
      × (is_complete r' ≡ ok (covers_all (p ∷ ps) (length message) 0))
reassembly_completes msg_type message_seq message r p ps fits v idle inside =
    let (r', reached, h) = deliver-Holds msg_type message_seq message r p ps fits v idle inside in
    (r', reached, is_complete-Holds msg_type message_seq message (p ∷ ps) r' fits h)

-- When the pieces cover the message, what was reassembled is the message.
pub reassembly_correct :
    (msg_type message_seq : ℕ) (message : Bytes) (r : Reassembly) (p : Piece) (ps : List Piece)
    → length message ≤ max_len
    → IsValid r
    → r.in_progress ≡ false
    → AllInside (length message) (p ∷ ps)
    → covers_all (p ∷ ps) (length message) 0 ≡ true
    → (r' : Reassembly) × (deliver msg_type message_seq message r (p ∷ ps) ≡ ok r')
      × (is_complete r' ≡ ok true)
      × (take r'.total_len r'.buf ≡ message)
reassembly_correct msg_type message_seq message r p ps fits v idle inside covered =
    let (r', reached, h) = deliver-Holds msg_type message_seq message r p ps fits v idle inside in
    (
      r',
      reached,
      is_complete-Holds msg_type message_seq message (p ∷ ps) r' fits h ∙ ap ok covered,
      content-Holds msg_type message_seq message (p ∷ ps) r' fits h covered,
    )
