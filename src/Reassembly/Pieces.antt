-- ===== src/Reassembly/Pieces.antt =====
-- Storing one fragment of a message: what the state holds after some of its pieces.
use nano_dtls.Base.{
  ℕ, zero, suc, ◌+◌, ◌-◌, ◌≤◌, ◌<◌, ◌≡◌, refl, ap, ◌∙◌, Bool, true, false, ◌&&◌, ◌||◌, arith,
}
use nano_dtls.Base.{List, [], ◌∷◌, leb, ltb, if◌then◌else◌}
use nano_dtls.Base.{
  Bytes, length, get_or, get_or-take, get_or-drop, get_or-write_at, get_or-replicate,
  take-take_self, write_at-nil, drop, slice, replicate, write_at,
}
use nano_dtls.Base.{length-write_at, length-replicate, length-take, length-drop}
use nano_dtls.Base.{Result, ok, ◌>>=◌, read_bytes, copy_into, fill}
use nano_dtls.Handshake.Header.{HandshakeHdr}
use nano_dtls.Reassembly.Valid.{IsValid}
use nano_dtls.Reassembly.{Reassembly, max_len, enter, store, add_fragment}

-- A range of the message.
pub record Piece : Type 0 where
  pub offset : ℕ
  pub len : ℕ

-- The pieces lie inside a message of `n` bytes.
abbrev pub AllInside : ℕ → List Piece → Type 0
AllInside n [] = Unit {0}
AllInside n (p ∷ ps) = (p.offset + p.len ≤ n) × AllInside n ps

-- Some piece covers index `i`.
abbrev pub covers : List Piece → ℕ → Bool
covers [] i = false
covers (p ∷ ps) i = (leb p.offset i && ltb i (p.offset + p.len)) || covers ps i

-- The pieces cover the `left` indices from `i` on.
abbrev pub covers_all : List Piece → ℕ → ℕ → Bool
covers_all ps zero i = true
covers_all ps (suc left) i = covers ps i && covers_all ps left (i + 1)

module _ (msg_type message_seq : ℕ) (message : Bytes) where
  -- The header and the bytes of a piece, as the sender frames them.
  abbrev pub hdr_of : Piece → HandshakeHdr
  hdr_of p = record {
    msg_type = msg_type;
    length = length message;
    message_seq = message_seq;
    fragment_offset = p.offset;
    fragment_length = p.len;
  }

  -- The pieces are fed one after another, the last of the list first.
  unfoldable pub deliver : Reassembly → List Piece → Result Reassembly
  deliver r [] = ok r
  deliver r (p ∷ ps) =
      deliver r ps >>= λ r'. add_fragment r' (hdr_of p) (slice message p.offset p.len)

  -- The state after the pieces `ps`, the first of which started the message.
  pub record Holds (ps : List Piece) (r : Reassembly) : Type 0 where
    pub buf_size : length r.buf ≡ max_len
    pub received_size : length r.received ≡ max_len
    pub same_type : r.msg_type ≡ msg_type
    pub same_seq : r.message_seq ≡ message_seq
    pub same_len : r.total_len ≡ length message
    pub known : r.total_len_known ≡ true
    pub started : r.in_progress ≡ true
    pub marks :
        (i : ℕ) → i < length message → get_or r.received i 0 ≡ (if covers ps i then 1 else 0)
    pub content :
        (i : ℕ) → i < length message → covers ps i ≡ true → get_or r.buf i 0 ≡ get_or message i 0

  -- What `store` leaves for a piece inside the message.
  abbrev pub stored : Reassembly → Piece → Reassembly
  stored r p = record r {
    buf = write_at r.buf p.offset (slice message p.offset p.len);
    received = write_at r.received p.offset (replicate p.len 1);
  }

  length-piece :
      (p : Piece)
      → p.offset + p.len ≤ length message
      → length (slice message p.offset p.len) ≡ p.len
  length-piece p inside =
      omega (arith, length-take p.len (drop p.offset message), length-drop p.offset message)

  store-ok :
      (r : Reassembly) (p : Piece)
      → length r.buf ≡ max_len
      → length r.received ≡ max_len
      → length message ≤ max_len
      → p.offset + p.len ≤ length message
      → store r (hdr_of p) (slice message p.offset p.len) ≡ ok (stored r p)
  unfolding store fill read_bytes copy_into
  store-ok r p b m fits inside = ground (
    arith,
    length-piece p inside,
    length-replicate {A = ℕ} p.len 1,
    take-take_self p.len (drop p.offset message),
    nothing r p,
  )
    where
      nothing : (r : Reassembly) (p : Piece) → p.len ≡ 0 → stored r p ≡ r
      nothing r p e = simp (e, write_at-nil)

  get_or-piece :
      (p : Piece) (i : ℕ)
      → p.offset ≤ i
      → i < p.offset + p.len
      → get_or (slice message p.offset p.len) (i - p.offset) 0 ≡ get_or message i 0
  get_or-piece p i lo hi =
      get_or-take (drop p.offset message) p.len (i - p.offset) 0 (omega arith)
      ∙ get_or-drop p.offset (i - p.offset) message
      ∙ ap (λ k. get_or message k 0) (omega arith)

  -- Storing a piece keeps what the earlier pieces left, and adds its own range.
  pub stored-Holds :
      (ps : List Piece) (p : Piece) (r : Reassembly)
      → length message ≤ max_len
      → p.offset + p.len ≤ length message
      → Holds ps r
      → Holds (p ∷ ps) (stored r p)
  stored-Holds ps p r fits inside h = record {
    buf_size = length-write_at r.buf p.offset (slice message p.offset p.len) ∙ h.buf_size;
    received_size = length-write_at r.received p.offset (replicate p.len 1) ∙ h.received_size;
    same_type = h.same_type;
    same_seq = h.same_seq;
    same_len = h.same_len;
    known = h.known;
    started = h.started;
    marks = λ i lt. ground (
      arith,
      h.received_size,
      length-replicate {A = ℕ} p.len 1,
      get_or-write_at r.received p.offset (replicate p.len 1) i,
      get_or-replicate p.len 1 (i - p.offset),
      h.marks i lt,
    );
    content = λ i lt c. ground (
      arith,
      h.buf_size,
      length-piece p inside,
      get_or-write_at r.buf p.offset (slice message p.offset p.len) i,
      get_or-piece p i,
      h.content i lt,
    );
  }

  -- A fragment of the message in progress is taken as it is.
  pub add-Holds :
      (ps : List Piece) (p : Piece) (r : Reassembly)
      → length message ≤ max_len
      → p.offset + p.len ≤ length message
      → Holds ps r
      → add_fragment r (hdr_of p) (slice message p.offset p.len) ≡ ok (stored r p)
  unfolding add_fragment enter
  add-Holds ps p r fits inside h = ground (
    arith,
    h.started,
    h.same_type,
    h.same_seq,
    h.same_len,
    store-ok r p h.buf_size h.received_size fits inside,
  )

  -- The state that the first fragment of the message starts from.
  abbrev pub entered : Reassembly → Reassembly
  entered r = record r {
    msg_type = msg_type;
    message_seq = message_seq;
    total_len = length message;
    total_len_known = true;
    in_progress = true;
    received = write_at r.received 0 (replicate (length message) 0);
  }

  pub entered-Holds : (r : Reassembly) → length message ≤ max_len → IsValid r → Holds [] (entered r)
  entered-Holds r fits v = record {
    buf_size = v.buf_size;
    received_size = length-write_at r.received 0 (replicate (length message) 0) ∙ v.received_size;
    same_type = refl;
    same_seq = refl;
    same_len = refl;
    known = refl;
    started = refl;
    marks = λ i lt. ground (
      arith,
      v.received_size,
      length-replicate {A = ℕ} (length message) 0,
      get_or-write_at r.received 0 (replicate (length message) 0) i,
      get_or-replicate (length message) 0 i,
    );
    content = λ i lt c. cc;
  }

  pub add_first :
      (p : Piece) (r : Reassembly)
      → length message ≤ max_len
      → p.offset + p.len ≤ length message
      → IsValid r
      → r.in_progress ≡ false
      → add_fragment r (hdr_of p) (slice message p.offset p.len) ≡ ok (stored (entered r) p)
  unfolding add_fragment enter fill copy_into
  add_first p r fits inside v idle =
      let h : Holds [] (entered r) = entered-Holds r fits v in
      ground (
        arith,
        idle,
        v.received_size,
        length-replicate {A = ℕ} (length message) 0,
        store-ok (entered r) p h.buf_size h.received_size fits inside,
      )
