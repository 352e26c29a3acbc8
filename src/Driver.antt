-- ===== src/Driver.antt =====
-- What src/handshake/client.c and src/handshake/server.c share: the messages they send and receive,
-- and the keys they agree on. The cryptography that the two files call is a record of operations,
-- from include/nanodtls/aead.h, include/nanodtls/x25519.h and include/nanodtls/p256.h. Pointers are
-- valid, so the tests for NULL fall away. A pointer into a datagram with its length is given by the
-- bytes that it shows.
pub mod Accepted
pub mod Delivery
pub mod Hellos
use nano_dtls.Base.{
  ℕ, ◌+◌, Bool, true, ◌||◌, ◌&&◌, ◌==◌, ◌!=◌, [], ◌∷◌, Bytes, length, bytes_of, u32, Result, ok,
  ◌>>=◌, ◌>>◌, fail_if, unsupported, auth_failed,
}
use nano_dtls.Aead.{Aead}
use nano_dtls.Protect.{Protection, Unprotection, protect, unprotect}
use nano_dtls.Record.Plaintext
use nano_dtls.Handshake.Header.{HandshakeHdr}
use nano_dtls.Handshake.Header
use nano_dtls.Transcript.{Transcript, add, snapshot}
use nano_dtls.KeySchedule.{HandshakeKeys, derive_handshake_keys}
use nano_dtls.Messages.Verify.{Verify}

pub record Crypto : Type 0 where
  pub aead : Aead
  pub x25519_base : Bytes → Result Bytes
  pub x25519_scalarmult : Bytes → Bytes → Result Bytes
  pub point_is_valid : Bytes → Bytes → Bool
  pub ecdsa_verify : Verify

-- `ND_MAX_MSG`
abbrev pub max_msg : ℕ
max_msg = 4096

-- `ND_CT_HANDSHAKE`
abbrev pub handshake_type : ℕ
handshake_type = 22

-- The message types.
abbrev pub hs_client_hello : ℕ
hs_client_hello = 1

abbrev pub hs_server_hello : ℕ
hs_server_hello = 2

abbrev pub hs_encrypted_extensions : ℕ
hs_encrypted_extensions = 8

abbrev pub hs_certificate : ℕ
hs_certificate = 11

abbrev pub hs_certificate_verify : ℕ
hs_certificate_verify = 15

abbrev pub hs_finished : ℕ
hs_finished = 20

-- `ND_HKDF_LABEL_PREFIX_DTLS13`
abbrev pub dtls13 : Bytes
dtls13 = b'd' ∷ b't' ∷ b'l' ∷ b's' ∷ b'1' ∷ b'3' ∷ []

-- `ND_CERT_VERIFY_CONTEXT_SERVER`, "TLS 1.3, server CertificateVerify"
abbrev pub server_context : Bytes
server_context =
    b'T' ∷ b'L' ∷ b'S' ∷ b' ' ∷ b'1' ∷ b'.' ∷ b'3' ∷ b',' ∷ b' ' ∷ b's' ∷ b'e' ∷ b'r' ∷ b'v' ∷ b'e'
    ∷ b'r' ∷ b' ' ∷ b'C' ∷ b'e' ∷ b'r' ∷ b't' ∷ b'i' ∷ b'f' ∷ b'i' ∷ b'c' ∷ b'a' ∷ b't' ∷ b'e'
    ∷ b'V' ∷ b'e' ∷ b'r' ∷ b'i' ∷ b'f' ∷ b'y' ∷ []

-- The header of `wrap_and_add`.
abbrev pub whole_message : ℕ → ℕ → Bytes → HandshakeHdr
whole_message msg_type message_seq body = record {
  msg_type = msg_type;
  length = u32 (length body);
  message_seq = message_seq;
  fragment_offset = 0;
  fragment_length = u32 (length body);
}

-- `out[0 .. *out_len)` and `*t`.
pub record Wrapped : Type 0 where
  pub out : Bytes
  pub transcript : Transcript

unfoldable pub wrap_and_add : Transcript → ℕ → ℕ → Bytes → ℕ → Result Wrapped
wrap_and_add t msg_type message_seq body out_cap = do
  out ← Header.serialize (whole_message msg_type message_seq body) body out_cap
  ok (record { out = out; transcript = add t out })

-- The record in front of a hello.
abbrev pub hello_record : Plaintext.PlaintextHdr
hello_record = record {
  type = handshake_type;
  legacy_version = 0xfefd;
  epoch = 0;
  sequence_number = 0;
  length = 0;
}

-- A handshake message with its header: `hh`, `frag[0 .. frag_len)`, and all the bytes that go into
-- the transcript.
pub record Received : Type 0 where
  pub hdr : HandshakeHdr
  pub fragment : Bytes
  pub message : Bytes

unfoldable pub read_handshake : Bytes → Result Received
read_handshake message = do
  parsed ← Header.parse message
  ok (record { hdr = parsed.hdr; fragment = bytes_of message parsed.fragment; message = message })

-- `recv_plaintext_handshake` behind its receive.
unfoldable pub open_plaintext : Bytes → Result Received
open_plaintext datagram = do
  parsed ← Plaintext.parse datagram
  fail_if (parsed.hdr.type != handshake_type) unsupported
  read_handshake (bytes_of datagram parsed.fragment)

-- A message that was protected, with `*u` after it.
pub record Opened : Type 0 where
  pub received : Received
  pub reader : Unprotection

-- `recv_protected_handshake` behind its receive.
unfoldable pub open_protected : Crypto → Unprotection → Bytes → Result Opened
open_protected crypto u datagram = do
  opened ← unprotect crypto.aead u datagram max_msg
  fail_if (opened.content_type != handshake_type) unsupported
  received ← read_handshake opened.plaintext
  ok (record { received = received; reader = opened.state })

-- The tests of a message's type, and for fragmentation.
unfoldable pub expect : ℕ → Received → Result (Unit {0})
expect msg_type received = do
  let hdr = received.hdr
  fail_if (hdr.msg_type != msg_type) unsupported
  fail_if (hdr.fragment_offset != 0 || hdr.fragment_length != hdr.length) unsupported

abbrev pub all_zero : Bytes → Bool
all_zero [] = true
all_zero (x ∷ xs) = x == 0 && all_zero xs

-- The shared secret, its test, and the keys.
unfoldable pub agree : Crypto → Bytes → Bytes → Transcript → Result HandshakeKeys
agree crypto private_key peer_key t = do
  shared_secret ← crypto.x25519_scalarmult private_key peer_key
  fail_if (all_zero shared_secret) auth_failed
  derive_handshake_keys dtls13 shared_secret (snapshot t)

-- A sealed record, with `*w` and `*t` after it.
pub record Outgoing : Type 0 where
  pub out : Bytes
  pub writer : Protection
  pub transcript : Transcript

-- A message is wrapped, added to the transcript and protected.
unfoldable pub seal_message : Crypto → Protection → Transcript → ℕ → ℕ → Bytes → ℕ → Result Outgoing
seal_message crypto w t msg_type message_seq body wrapped_cap = do
  wrapped ← wrap_and_add t msg_type message_seq body wrapped_cap
  sealed ← protect crypto.aead w handshake_type wrapped.out max_msg
  ok (record { out = sealed.out; writer = sealed.state; transcript = wrapped.transcript })
