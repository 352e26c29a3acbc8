-- ===== src/Reassembly.antt =====
-- Reassembly of handshake messages, src/reassembly.c. `*r` is updated by returning the new state;
-- on an error the function returns before any write, so an error stands for the state unchanged.
-- Pointers are valid, so the tests for NULL fall away.
pub mod Valid
pub mod Pieces
pub mod Message
mod Tests
use nano_dtls.Base.{ℕ, zero, suc, ◌+◌, Bool, true, false, not, ◌||◌, ltb, ◌==◌, ◌!=◌, if◌then◌else◌}
use nano_dtls.Base.{Bytes, byte_at, u32, replicate, read_bytes, copy_into, fill}
use nano_dtls.Base.{Result, ok, ◌>>=◌, ◌>>◌, fail_if, bad_length, unsupported}
use nano_dtls.Handshake.Header.{HandshakeHdr}

abbrev pub max_len : ℕ
max_len = 4096

-- `nd_reassembly`
pub record Reassembly : Type 0 where
  pub buf : Bytes
  pub received : Bytes
  pub total_len : ℕ
  pub total_len_known : Bool
  pub msg_type : ℕ
  pub message_seq : ℕ
  pub in_progress : Bool

unfoldable pub init : Reassembly → Reassembly
init r = record r {
  total_len = 0;
  total_len_known = false;
  msg_type = 0;
  message_seq = 0;
  in_progress = false;
  received = replicate max_len 0;
}

-- The first fragment of a message starts it; a later one has to be of the same message.
unfoldable pub enter : Reassembly → HandshakeHdr → Result Reassembly
enter r hdr =
    if not r.in_progress
    then (do
      received ← fill r.received 0 0 hdr.length
      ok (record r {
        msg_type = hdr.msg_type;
        message_seq = hdr.message_seq;
        total_len = hdr.length;
        total_len_known = true;
        in_progress = true;
        received = received;
      }))
    else (do
      fail_if (hdr.msg_type != r.msg_type || hdr.message_seq != r.message_seq) unsupported
      fail_if (hdr.length != r.total_len) bad_length
      ok r)

-- The bytes of the fragment go to their place, and are marked as received.
unfoldable pub store : Reassembly → HandshakeHdr → Bytes → Result Reassembly
store r hdr fragment = if hdr.fragment_length == 0 then ok r else (do
  src ← read_bytes fragment hdr.fragment_length
  buf ← copy_into r.buf hdr.fragment_offset src
  received ← fill r.received hdr.fragment_offset 1 hdr.fragment_length
  ok (record r { buf = buf; received = received }))

unfoldable pub add_fragment : Reassembly → HandshakeHdr → Bytes → Result Reassembly
add_fragment r hdr fragment = do
  fail_if (ltb max_len hdr.length) bad_length
  fail_if (ltb hdr.length (u32 (hdr.fragment_offset + hdr.fragment_length))) bad_length
  r' ← enter r hdr
  store r' hdr fragment

-- The loop at index `i`, with `left` rounds to go.
unfoldable pub all_received : Bytes → ℕ → ℕ → Result Bool
all_received received zero i = ok true
all_received received (suc left) i = do
  x ← byte_at received i
  let rest = all_received received left (i + 1)
  if x == 0 then ok false else rest

unfoldable pub is_complete : Reassembly → Result Bool
unfolding all_received
is_complete r =
    if not r.in_progress || not r.total_len_known
    then ok false
    else all_received r.received r.total_len 0
