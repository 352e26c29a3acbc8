-- ===== src/Reassembly/Valid.antt =====
-- The representation invariant of `nd_reassembly`: no access outside its two arrays.
use nano_dtls.Base.{ℕ, ◌+◌, ◌^◌, ◌≤◌, ◌<◌, ◌≡◌, refl, ◌⊎◌, ◌≢◌, Bool, true, false, arith, u32}
use nano_dtls.Base.{
  truncated, not_unified, bad_arg, auth_failed, Bool-cases, ◌==◌, not, ◌||◌, inl, inr, ltb, ◌>>=◌,
  Bytes, length, get_or, take, replicate, length-write_at, length-replicate, length-take,
}
use nano_dtls.Base.{
  Result, ok, err, fault, bad_length, unsupported, byte_at_in, read_bytes, copy_into, fill, zero,
  suc,
}
use nano_dtls.Handshake.Header.{HandshakeHdr}
use nano_dtls.Handshake.Header.Reads.{Is24Bit}
use nano_dtls.Reassembly.{
  Reassembly, max_len, init, enter, store, add_fragment, all_received, is_complete,
}

pub record IsValid (r : Reassembly) : Type 0 where
  pub buf_size : length r.buf ≡ max_len
  pub received_size : length r.received ≡ max_len
  pub total_fits : r.total_len ≤ max_len

-- What each result of taking a fragment says of the state and the header.
abbrev pub Explains : Reassembly → HandshakeHdr → Result Reassembly → Type 0
Explains r hdr (ok r') =
    IsValid r'
    × (hdr.length ≤ max_len)
    × (hdr.fragment_offset + hdr.fragment_length ≤ hdr.length)
    × (r'.total_len ≡ hdr.length)
Explains r hdr (err unsupported) =
    (r.in_progress ≡ true) × ((hdr.msg_type ≢ r.msg_type) ⊎ (hdr.message_seq ≢ r.message_seq))
Explains r hdr (err bad_length) =
    (max_len < hdr.length)
    ⊎ (hdr.length < hdr.fragment_offset + hdr.fragment_length)
    ⊎ (r.in_progress ≡ true) × (hdr.length ≢ r.total_len)
Explains r hdr _ = ⊥

-- A state that is valid and has the header's length, or an error as above.
abbrev Entered : Reassembly → HandshakeHdr → Result Reassembly → Type 0
Entered r hdr (ok r') = IsValid r' × (r'.total_len ≡ hdr.length)
Entered r hdr (err unsupported) =
    (r.in_progress ≡ true) × ((hdr.msg_type ≢ r.msg_type) ⊎ (hdr.message_seq ≢ r.message_seq))
Entered r hdr (err bad_length) = (r.in_progress ≡ true) × (hdr.length ≢ r.total_len)
Entered r hdr _ = ⊥

abbrev Stored : HandshakeHdr → Result Reassembly → Type 0
Stored hdr (ok r') = IsValid r' × (r'.total_len ≡ hdr.length)
Stored hdr _ = ⊥

pub init-IsValid : (r : Reassembly) → length r.buf ≡ max_len → IsValid (init r)
unfolding init
init-IsValid r h = record {
  buf_size = h;
  received_size = length-replicate {A = ℕ} max_len 0;
  total_fits = omega arith;
}

enter-Entered :
    (r : Reassembly) (hdr : HandshakeHdr)
    → IsValid r
    → hdr.length ≤ max_len
    → Entered r hdr (enter r hdr)
unfolding enter fill copy_into
enter-Entered r hdr v h = ground (
  arith,
  v.received_size,
  v.buf_size,
  v.total_fits,
  length-write_at r.received 0 (replicate hdr.length 0),
  length-replicate {A = ℕ} hdr.length 0,
)

store-Stored :
    (r : Reassembly) (hdr : HandshakeHdr) (fragment : Bytes)
    → IsValid r
    → r.total_len ≡ hdr.length
    → hdr.fragment_length ≤ length fragment
    → hdr.fragment_offset + hdr.fragment_length ≤ max_len
    → Stored hdr (store r hdr fragment)
unfolding store fill copy_into read_bytes
store-Stored r hdr fragment v same readable inside = ground (
  arith,
  v.received_size,
  v.buf_size,
  v.total_fits,
  length-take hdr.fragment_length fragment,
  length-replicate {A = ℕ} hdr.fragment_length 1,
  length-write_at r.received hdr.fragment_offset (replicate hdr.fragment_length 1),
  length-write_at r.buf hdr.fragment_offset (take hdr.fragment_length fragment),
)

Stored-Explains :
    (r : Reassembly) (hdr : HandshakeHdr) (m : Result Reassembly)
    → hdr.length ≤ max_len
    → hdr.fragment_offset + hdr.fragment_length ≤ hdr.length
    → Stored hdr m
    → Explains r hdr m
Stored-Explains r hdr (ok r') p q h = (h.0, p, q, h.1)
Stored-Explains r hdr (err e) p q h = absurd h
Stored-Explains r hdr fault p q h = absurd h

Entered->>= :
    (r : Reassembly) (hdr : HandshakeHdr) (m : Result Reassembly)
    (f : Reassembly → Result Reassembly)
    → Entered r hdr m
    → ((r' : Reassembly) → IsValid r' → r'.total_len ≡ hdr.length → Explains r hdr (f r'))
    → Explains r hdr (m >>= f)
Entered->>= r hdr (ok r') f h k = k r' h.0 h.1
Entered->>= r hdr (err unsupported) f h k = h
Entered->>= r hdr (err bad_length) f h k = inr (inr h)
Entered->>= r hdr (err truncated) f h k = h
Entered->>= r hdr (err not_unified) f h k = h
Entered->>= r hdr (err bad_arg) f h k = h
Entered->>= r hdr (err auth_failed) f h k = h
Entered->>= r hdr fault f h k = h

-- A fragment whose header came from the parser (three fields of 24 bits), with as many bytes
-- behind the pointer as the header says, is never stored outside the arrays. What is taken leaves a
-- valid state for a message of the header's length, in which the fragment lies; what is refused
-- is a fragment of another message than the one in progress, or one whose lengths do not fit.
pub add_fragment_safe :
    (r : Reassembly) (hdr : HandshakeHdr) (fragment : Bytes)
    → IsValid r
    → Is24Bit hdr
    → hdr.fragment_length ≤ length fragment
    → Explains r hdr (add_fragment r hdr fragment)
unfolding add_fragment
add_fragment_safe r hdr fragment v fits readable = elim (Bool-cases (ltb max_len hdr.length)) [
  | inl long ↦ rw long (inl (ground arith))
  | inr short ↦
      elim (Bool-cases (ltb hdr.length (u32 (hdr.fragment_offset + hdr.fragment_length)))) [
        | inl overruns ↦ rw (short, overruns) (inr (inl (ground arith)))
        | inr inside ↦
            rw (short, inside)
              (let small : hdr.length ≤ max_len = ground arith in
                let within : hdr.fragment_offset + hdr.fragment_length ≤ hdr.length =
                  ground arith in
                Entered->>= r hdr (enter r hdr) (λ r'. store r' hdr fragment)
                  (enter-Entered r hdr v small)
                  (λ r' v' same.
                    Stored-Explains r hdr (store r' hdr fragment) small within
                      (store-Stored r' hdr fragment v' same readable (omega arith))))
      ]
]

-- A header that did not come from the parser can carry an offset and a length whose 32-bit sum
-- wraps. It passes the length check, and the copy then runs outside the buffer: of a message that
-- is starting, every such fragment is stored outside the array.
pub wrapped_fragment_faults :
    (r : Reassembly) (hdr : HandshakeHdr) (fragment : Bytes)
    → IsValid r
    → r.in_progress ≡ false
    → hdr.length ≤ max_len
    → hdr.fragment_offset < 2 ^ 32
    → hdr.fragment_length < 2 ^ 32
    → 0 < hdr.fragment_length
    → hdr.fragment_length ≤ length fragment
    → 2 ^ 32 ≤ hdr.fragment_offset + hdr.fragment_length
    → hdr.fragment_offset + hdr.fragment_length ≤ 2 ^ 32 + hdr.length
    → add_fragment r hdr fragment ≡ fault
unfolding add_fragment enter store fill copy_into read_bytes
wrapped_fragment_faults r hdr fragment v idle small offset_word length_word pos readable wraps
      passes =
    ground (
      arith,
      idle,
      v.received_size,
      v.buf_size,
      length-take hdr.fragment_length fragment,
      length-replicate {A = ℕ} hdr.length 0,
    )

all_received-ok :
    (received : Bytes) (left i : ℕ)
    → i + left ≤ length received
    → (b : Bool) × (all_received received left i ≡ ok b)
unfolding all_received
all_received-ok received zero i h = (true, refl)
all_received-ok received (suc left) i h =
    let (b, rest) = all_received-ok received left (i + 1) (omega arith) in
    elim (Bool-cases (get_or received i 0 == 0)) [
      | inl e ↦ (false, ground (arith, byte_at_in received i))
      | inr e ↦ (b, ground (arith, byte_at_in received i, rest))
    ]

-- The test for completeness reads inside the array.
pub is_complete-ok : (r : Reassembly) → IsValid r → (b : Bool) × (is_complete r ≡ ok b)
unfolding is_complete
is_complete-ok r v = elim (Bool-cases (not r.in_progress || not r.total_len_known)) [
  | inl e ↦ (false, rw e refl)
  | inr e ↦ rw e (all_received-ok r.received r.total_len 0 (omega arith))
]
