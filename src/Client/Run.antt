-- ===== src/Client/Run.antt =====
-- src/handshake/client.c: the calls of the socket, and `nd_client_handshake`.
use nano_dtls.Base.{ℕ, zero, suc, Bytes, Status, truncated}
use nano_dtls.Protect.{Unprotection}
use nano_dtls.Transcript.{Transcript}
use nano_dtls.KeySchedule.{HandshakeKeys}
use nano_dtls.X509.{Cert}
use nano_dtls.Net.{Step, failed, ◌>>=◌, ◌>>◌, pure, lift, retry, recv, send, random_bytes}
use nano_dtls.Driver.{Crypto, Received, Opened, open_plaintext, open_protected}
use nano_dtls.Client.{
  Config, Session, Trusted, client_flight, on_server_hello, on_encrypted_extensions, on_certificate,
  on_certificate_verify, on_finished, client_finished,
}

unfoldable pub recv_plaintext_handshake : Step Received
recv_plaintext_handshake = do datagram ← recv; lift (open_plaintext datagram)

unfoldable pub recv_protected_handshake : Crypto → Unprotection → Step Opened
recv_protected_handshake crypto u = do datagram ← recv; lift (open_protected crypto u datagram)

-- One round of the loop that sends the ClientHello.
abbrev pub hello_attempt : Bytes → Step Received
hello_attempt datagram = do send datagram; recv_plaintext_handshake

-- The loop, with its counter and `st`.
unfoldable pub hello_attempts : ℕ → Status → Bytes → Step Received
hello_attempts zero st datagram n = failed st n
hello_attempts (suc left) st datagram n =
    let rest : Status → Step Received = λ e n'. hello_attempts left e datagram n' in
    retry (hello_attempt datagram n) rest

-- `ND_CLIENT_HELLO_MAX_ATTEMPTS`
abbrev pub max_attempts : ℕ
max_attempts = 5

-- `nd_client_result`
pub record ClientResult : Type 0 where
  pub keys : HandshakeKeys
  pub server_leaf : Cert

-- The server's Finished and the client's.
unfoldable pub exchange_finished :
    Crypto → Session → Trusted → Transcript → Unprotection → Step ClientResult
exchange_finished crypto session trusted t2 reader = do
  finished ← recv_protected_handshake crypto reader
  t3 ← lift (on_finished session.keys.server_handshake_traffic_secret t2 finished.received)
  out ← lift (client_finished crypto session t3)
  send out.out
  pure (record { keys = session.keys; server_leaf = trusted.leaf })

-- The handshake from EncryptedExtensions on.
unfoldable pub authenticate : Crypto → Config → Session → Step ClientResult
authenticate crypto config session = do
  extensions ← recv_protected_handshake crypto session.server_read
  t1 ← lift (on_encrypted_extensions session.transcript extensions.received)
  certificate ← recv_protected_handshake crypto extensions.reader
  trusted ← lift (on_certificate crypto config t1 certificate.received)
  verify ← recv_protected_handshake crypto certificate.reader
  t2 ← lift (on_certificate_verify crypto trusted verify.received)
  exchange_finished crypto session trusted t2 verify.reader

-- `nd_client_handshake`
unfoldable pub client_handshake : Crypto → Config → Step ClientResult
client_handshake crypto config = do
  random ← random_bytes
  private_key ← random_bytes
  flight ← lift (client_flight crypto random private_key)
  hello ← hello_attempts max_attempts truncated flight.datagram
  session ← lift (on_server_hello crypto flight hello)
  authenticate crypto config session
