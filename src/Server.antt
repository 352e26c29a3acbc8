-- ===== src/Server.antt =====
-- src/handshake/server.c, the steps of `nd_server_handshake` between two calls of the socket.
pub mod Run
pub mod Messages
pub mod Calls
pub mod Phases
pub mod Secure
pub mod Retry
use nano_dtls.Base.{
  ℕ, ◌+◌, ◌||◌, ◌==◌, ◌!=◌, ltb, List, [], ◌∷◌, ◌++◌, Bytes, length, u8, ◌>>>◌, Result, ok, ◌>>=◌,
  ◌>>◌, fail_if, unsupported, bad_length, bad_arg,
}
use nano_dtls.Protect.{Protection, Unprotection, Unprotected, protection_init, unprotection_init}
use nano_dtls.Record.Plaintext
use nano_dtls.Handshake.Header
use nano_dtls.Sha256.{sha256}
use nano_dtls.Transcript.{Transcript, empty, add, snapshot}
use nano_dtls.Hkdf.{hash_len}
use nano_dtls.KeySchedule.{HandshakeKeys, finished_compute, finished_verify}
use nano_dtls.Hello.{Params, server_hello_serialize}
use nano_dtls.Hello.Parse.{client_hello_parse}
use nano_dtls.Messages.{max_certs, encrypted_extensions_serialize, certificate_serialize}
use nano_dtls.Messages.Verify.{certificate_verify_content, content_max}
use nano_dtls.Asn1.{write_ecdsa_sig_value}
use nano_dtls.Net.{or_bad_arg}
use nano_dtls.Driver.{
  Crypto, max_msg, handshake_type, hs_client_hello, hs_server_hello, hs_encrypted_extensions,
  hs_certificate, hs_certificate_verify, hs_finished, dtls13, server_context, wrap_and_add,
  hello_record, open_plaintext, read_handshake, expect, agree, seal_message, Outgoing,
}

-- `nd_server_config`: the certificates, leaf first, and `sign_fn` with its context.
pub record Config : Type 0 where
  pub certs : List Bytes
  pub sign_fn : Bytes → Result (Bytes × Bytes)

-- The tests of the arguments.
unfoldable pub check_config : Config → Result (Unit {0})
check_config config =
    fail_if (length config.certs == 0 || ltb max_certs (length config.certs)) bad_arg

-- The ClientHello, with the transcript behind it.
pub record Greeted : Type 0 where
  pub hello : Params
  pub transcript : Transcript

unfoldable pub on_client_hello : Bytes → Result Greeted
on_client_hello datagram = do
  received ← open_plaintext datagram
  expect hs_client_hello received
  hello ← client_hello_parse received.fragment
  ok (record { hello = hello; transcript = add empty received.message })

-- The datagram with the ServerHello, and the transcript behind it.
pub record Reply : Type 0 where
  pub datagram : Bytes
  pub transcript : Transcript

unfoldable pub server_hello : Crypto → Bytes → Bytes → Transcript → Result Reply
server_hello crypto server_priv random t = do
  public_key ← or_bad_arg (crypto.x25519_base server_priv)
  body ← server_hello_serialize (record { random = random; x25519_public_key = public_key }) 512
  wrapped ← wrap_and_add t hs_server_hello 0 body (512 + Header.hdr_len)
  datagram ← Plaintext.serialize hello_record wrapped.out max_msg
  ok (record { datagram = datagram; transcript = wrapped.transcript })

-- What the server holds once it has the keys.
pub record Session : Type 0 where
  pub keys : HandshakeKeys
  pub transcript : Transcript
  pub server_write : Protection
  pub client_read : Unprotection

unfoldable pub server_session : Crypto → Bytes → Bytes → Transcript → Result Session
server_session crypto server_priv peer_key t = do
  keys ← agree crypto server_priv peer_key t
  ok (record {
    keys = keys;
    transcript = t;
    server_write = protection_init keys.server_write_key keys.server_write_iv 2;
    client_read = unprotection_init keys.client_write_key keys.client_write_iv 2;
  })

unfoldable pub encrypted_extensions : Crypto → Protection → Transcript → Result Outgoing
encrypted_extensions crypto w t = do
  body ← encrypted_extensions_serialize 2
  seal_message crypto w t hs_encrypted_extensions 1 body max_msg

unfoldable pub certificate : Crypto → Config → Protection → Transcript → Result Outgoing
certificate crypto config w t = do
  body ← certificate_serialize config.certs max_msg
  seal_message crypto w t hs_certificate 2 body max_msg

-- `cv_body`: the scheme, the length, and the signature.
abbrev pub verify_body : Bytes → Bytes
verify_body sig_der = 0x04 ∷ 0x03 ∷ u8 (length sig_der >>> 8) ∷ u8 (length sig_der) ∷ sig_der

unfoldable pub certificate_verify : Crypto → Config → Protection → Transcript → Result Outgoing
certificate_verify crypto config w t = do
  content ← certificate_verify_content server_context (snapshot t) content_max
  (sig_r, sig_s) ← config.sign_fn (sha256 content)
  sig_der ← write_ecdsa_sig_value sig_r sig_s 80
  seal_message crypto w t hs_certificate_verify 3 (verify_body sig_der) max_msg

unfoldable pub server_finished : Crypto → Bytes → Protection → Transcript → Result Outgoing
server_finished crypto base_key w t = do
  verify_data ← finished_compute dtls13 base_key (snapshot t)
  seal_message crypto w t hs_finished 4 verify_data max_msg

-- What follows the loop that waits for the client's Finished.
unfoldable pub on_client_finished : Bytes → Transcript → Unprotected → Result (Unit {0})
on_client_finished base_key t opened = do
  fail_if (opened.content_type != handshake_type) unsupported
  received ← read_handshake opened.plaintext
  expect hs_finished received
  fail_if (length received.fragment != hash_len) bad_length
  finished_verify dtls13 base_key (snapshot t) received.fragment
