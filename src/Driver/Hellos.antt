-- ===== src/Driver/Hellos.antt =====
-- The two hellos reach the other end as they were, and both ends derive the same keys.
use nano_dtls.Base.{
  ℕ, ◌^◌, ◌≤◌, ◌<◌, ◌≡◌, sym, ap, ◌∙◌, arith, false, [], ◌++◌, Bytes, length, length-append,
  bytes_of, ok, bind-returns,
}
use mathlib.Core.List.{append-nil}
use nano_dtls.Record.Plaintext.{PlaintextHdr}
use nano_dtls.Record.Plaintext
use nano_dtls.Record.Plaintext.RoundTrip.{parse-serialize_plaintext, serialize-Accepts}
use nano_dtls.Transcript.{Transcript, snapshot}
use nano_dtls.Hmac.Nested.{length-final}
use nano_dtls.KeySchedule.Derive.{schedule, derive_handshake_keys_lem}
use nano_dtls.Hello.{Params, random_len, x25519_len}
use nano_dtls.Hello.Format.{client_message, server_message}
use nano_dtls.Driver.{
  Crypto, max_msg, handshake_type, dtls13, hello_record, open_plaintext, all_zero, agree,
}
use nano_dtls.Driver.Delivery.{
  message_of, received_of, length-message_of, read_handshake-message_of,
}

-- The datagram that carries a hello.
abbrev pub hello_datagram : Bytes → Bytes
hello_datagram message = Plaintext.header_bytes hello_record (length message) ++ message

pub serialize-hello_datagram :
    (message : Bytes)
    → length message ≤ 4000
    → Plaintext.serialize hello_record message max_msg ≡ ok (hello_datagram message)
serialize-hello_datagram message short =
    serialize-Accepts hello_record message max_msg (omega arith, omega arith, omega arith)

pub open_plaintext-hello_datagram :
    (msg_type seq : ℕ) (body : Bytes)
    → seq < 2 ^ 16
    → length body ≤ 3900
    → open_plaintext (hello_datagram (message_of msg_type seq body))
      ≡ ok (received_of msg_type seq body)
unfolding open_plaintext
open_plaintext-hello_datagram msg_type seq body fits short =
    let message : Bytes = message_of msg_type seq body in
    let datagram : Bytes = hello_datagram message in
    let (p, read, hdr, shown) =
      parse-serialize_plaintext hello_record message [] datagram max_msg
        (record { type_fits = omega arith; version_fits = omega arith; epoch_fits = omega arith })
        (serialize-hello_datagram message (omega (arith, length-message_of msg_type seq body))) in
    let typed : p.hdr.type ≡ handshake_type = ap PlaintextHdr.type hdr in
    let fragment : bytes_of datagram p.fragment ≡ message =
      ap (λ d. bytes_of d p.fragment) (sym (append-nil datagram)) ∙ shown in
    bind-returns _ (ap Plaintext.parse (sym (append-nil datagram)) ∙ read)
      (ground (arith, fragment, read_handshake-message_of msg_type seq body fits (omega arith)))

pub length-client_message :
    (params : Params)
    → length params.random ≡ random_len
    → length params.x25519_public_key ≡ x25519_len
    → length (client_message params) ≤ 512
length-client_message params h g =
    omega (arith, length-append params.random, length-append params.x25519_public_key)

pub length-server_message :
    (params : Params)
    → length params.random ≡ random_len
    → length params.x25519_public_key ≡ x25519_len
    → length (server_message params) ≤ 512
length-server_message params h g =
    omega (arith, length-append params.random, length-append params.x25519_public_key)

-- Both ends agree on the keys that belong to the secret and the messages.
pub agree-schedule :
    (crypto : Crypto) (private_key peer_key shared : Bytes) (t : Transcript)
    → crypto.x25519_scalarmult private_key peer_key ≡ ok shared
    → all_zero shared ≡ false
    → agree crypto private_key peer_key t ≡ ok (schedule dtls13 shared (snapshot t))
unfolding agree snapshot
agree-schedule crypto private_key peer_key shared t exchanged nonzero = bind-returns _ exchanged (
    rw nonzero
      (derive_handshake_keys_lem dtls13 shared (snapshot t) (omega arith) (length-final t.ctx)).0)
