-- ===== src/Client.antt =====
-- src/handshake/client.c, the steps of `nd_client_handshake` between two calls of the socket.
pub mod Run
pub mod Safety
pub mod Identity
pub mod Phases
pub mod Secure
pub mod Retry
pub mod Messages
use nano_dtls.Base.{
  ℕ, ◌+◌, List, [], ◌∷◌, ◌!=◌, Bytes, length, Result, ok, fault, ◌>>=◌, ◌>>◌, fail_if, unsupported,
  bad_length,
}
use nano_dtls.Protect.{Protection, Unprotection, protection_init, unprotection_init}
use nano_dtls.Record.Plaintext
use nano_dtls.Handshake.Header
use nano_dtls.Transcript.{Transcript, empty, add, snapshot}
use nano_dtls.Hkdf.{hash_len}
use nano_dtls.KeySchedule.{HandshakeKeys, finished_compute, finished_verify}
use nano_dtls.Hello.{Params, client_hello_serialize, cipher_suite}
use nano_dtls.Hello.Parse.{server_hello_parse}
use nano_dtls.Messages.{encrypted_extensions_parse, certificate_parse, certificate_verify_parse}
use nano_dtls.Messages.Verify.{certificate_verify_check}
use nano_dtls.X509.{Cert}
use nano_dtls.X509.Parse.{x509_parse}
use nano_dtls.X509.Chain.{verify_chain}
use nano_dtls.Net.{or_bad_arg}
use nano_dtls.Driver.{
  Crypto, max_msg, hs_client_hello, hs_server_hello, hs_encrypted_extensions, hs_certificate,
  hs_certificate_verify, hs_finished, dtls13, server_context, wrap_and_add, hello_record, Received,
  expect, agree, seal_message, Outgoing,
}

-- The ClientHello that is ready to be sent.
pub record Flight : Type 0 where
  pub private_key : Bytes
  pub datagram : Bytes
  pub transcript : Transcript

unfoldable pub client_flight : Crypto → Bytes → Bytes → Result Flight
client_flight crypto random private_key = do
  public_key ← or_bad_arg (crypto.x25519_base private_key)
  body ← client_hello_serialize (record { random = random; x25519_public_key = public_key }) 512
  wrapped ← wrap_and_add empty hs_client_hello 0 body (512 + Header.hdr_len)
  datagram ← Plaintext.serialize hello_record wrapped.out max_msg
  ok (record { private_key = private_key; datagram = datagram; transcript = wrapped.transcript })

-- What the client holds once it has the keys.
pub record Session : Type 0 where
  pub keys : HandshakeKeys
  pub transcript : Transcript
  pub server_read : Unprotection
  pub client_write : Protection

unfoldable pub on_server_hello : Crypto → Flight → Received → Result Session
on_server_hello crypto flight received = do
  expect hs_server_hello received
  let t = add flight.transcript received.message
  hello ← server_hello_parse received.fragment
  fail_if (hello.cipher_suite != cipher_suite) unsupported
  keys ← agree crypto flight.private_key hello.key_share t
  ok (record {
    keys = keys;
    transcript = t;
    server_read = unprotection_init keys.server_write_key keys.server_write_iv 2;
    client_write = protection_init keys.client_write_key keys.client_write_iv 2;
  })

unfoldable pub on_encrypted_extensions : Transcript → Received → Result Transcript
on_encrypted_extensions t received = do
  expect hs_encrypted_extensions received
  encrypted_extensions_parse received.fragment
  ok (add t received.message)

-- The loop over the certificates.
abbrev pub parse_certificates : Crypto → List Bytes → Result (List Cert)
parse_certificates crypto [] = ok []
parse_certificates crypto (der ∷ ders) = do
  cert ← x509_parse crypto.point_is_valid der
  certs ← parse_certificates crypto ders
  ok (cert ∷ certs)

-- `chain[0]`
abbrev pub first_cert : List Cert → Result Cert
first_cert [] = fault
first_cert (cert ∷ certs) = ok cert

-- The arguments of the handshake.
pub record Config : Type 0 where
  pub trust_anchor : Cert
  pub at_time : ℕ

pub record Trusted : Type 0 where
  pub leaf : Cert
  pub transcript : Transcript

unfoldable pub on_certificate : Crypto → Config → Transcript → Received → Result Trusted
on_certificate crypto config t received = do
  expect hs_certificate received
  ders ← certificate_parse received.fragment
  chain ← parse_certificates crypto ders
  verify_chain crypto.ecdsa_verify chain config.trust_anchor config.at_time
  leaf ← first_cert chain
  ok (record { leaf = leaf; transcript = add t received.message })

-- The hash is taken before the message arrives.
unfoldable pub on_certificate_verify : Crypto → Trusted → Received → Result Transcript
on_certificate_verify crypto trusted received = do
  expect hs_certificate_verify received
  msg ← certificate_verify_parse received.fragment
  certificate_verify_check crypto.ecdsa_verify msg server_context (snapshot trusted.transcript)
      trusted.leaf.pubkey_qx trusted.leaf.pubkey_qy
  ok (add trusted.transcript received.message)

-- The server's Finished, and in the server the client's.
unfoldable pub on_finished : Bytes → Transcript → Received → Result Transcript
on_finished base_key t received = do
  expect hs_finished received
  fail_if (length received.fragment != hash_len) bad_length
  finished_verify dtls13 base_key (snapshot t) received.fragment
  ok (add t received.message)

unfoldable pub client_finished : Crypto → Session → Transcript → Result Outgoing
client_finished crypto session t = do
  verify_data ← finished_compute dtls13 session.keys.client_handshake_traffic_secret (snapshot t)
  seal_message crypto session.client_write t hs_finished 1 verify_data (hash_len + Header.hdr_len)
