-- ===== src/Server/Run.antt =====
-- src/handshake/server.c: the calls of the socket, and `nd_server_handshake`.
use nano_dtls.Base.{ℕ, zero, suc, Result, Status, truncated}
use nano_dtls.Protect.{Unprotection, Unprotected, unprotect}
use nano_dtls.Transcript.{Transcript}
use nano_dtls.KeySchedule.{HandshakeKeys}
use nano_dtls.Net.{Step, failed, ◌>>=◌, ◌>>◌, pure, lift, retry, recv, send, random_bytes}
use nano_dtls.Driver.{Crypto, Outgoing, max_msg}
use nano_dtls.Server.{
  Config, Session, check_config, on_client_hello, server_hello, server_session,
  encrypted_extensions, certificate, certificate_verify, server_finished, on_client_finished,
}

-- The end of `send_protected`: the sealed message goes out.
unfoldable pub send_protected : Result Outgoing → Step Outgoing
send_protected message = do out ← lift message; send out.out; pure out

-- The loop that skips what does not decrypt, with its counter and `st`.
unfoldable pub finished_attempts : Crypto → ℕ → Status → Unprotection → Step Unprotected
finished_attempts crypto zero st u n = failed st n
finished_attempts crypto (suc left) st u n =
    let rest : Status → Step Unprotected = λ e n'. finished_attempts crypto left e u n' in
    (recv >>= λ datagram n'. retry (lift (unprotect crypto.aead u datagram max_msg) n') rest) n

abbrev pub max_attempts : ℕ
max_attempts = 8

-- The wait for the client's Finished, and its check.
unfoldable pub await_finished : Crypto → Session → Transcript → Step HandshakeKeys
await_finished crypto session t = do
  opened ← finished_attempts crypto max_attempts truncated session.client_read
  lift (on_client_finished session.keys.client_handshake_traffic_secret t opened)
  pure session.keys

-- The handshake from EncryptedExtensions on.
unfoldable pub serve : Crypto → Config → Session → Step HandshakeKeys
serve crypto config session = do
  o1 ← send_protected (encrypted_extensions crypto session.server_write session.transcript)
  o2 ← send_protected (certificate crypto config o1.writer o1.transcript)
  o3 ← send_protected (certificate_verify crypto config o2.writer o2.transcript)
  o4 ←
      send_protected (
        server_finished crypto session.keys.server_handshake_traffic_secret o3.writer o3.transcript)
  await_finished crypto session o4.transcript

-- `nd_server_handshake`; `out_result` holds the keys alone.
unfoldable pub server_handshake : Crypto → Config → Step HandshakeKeys
server_handshake crypto config = do
  lift (check_config config)
  datagram ← recv
  greeted ← lift (on_client_hello datagram)
  server_priv ← random_bytes
  random ← random_bytes
  reply ← lift (server_hello crypto server_priv random greeted.transcript)
  send reply.datagram
  session ←
      lift (server_session crypto server_priv greeted.hello.x25519_public_key reply.transcript)
  serve crypto config session
