-- ===== src/Complete/Phases.antt =====
-- The phases behind the hellos, for an honest server whose certificates the client trusts.
use nano_dtls.Base.{
  IsBytes, ◌+◌, ◌≤◌, ◌<◌, ◌≡◌, refl, ap, arith, List, [], ◌∷◌, ◌++◌, Bytes, length, Result, ok,
}
use nano_dtls.Aead.{key_len, nonce_len}
use nano_dtls.Complete.Bytes.{AllBytes}
use nano_dtls.Protect.{Unprotection, protection_init, unprotection_init, max_inner}
use nano_dtls.Handshake.Header.{hdr_len}
use nano_dtls.Sha256.{sha256}
use nano_dtls.Transcript.{Transcript, snapshot}
use nano_dtls.KeySchedule.{HandshakeKeys}
use nano_dtls.Messages.{max_certs}
use nano_dtls.Messages.Certificate.{certificate_message}
use nano_dtls.Messages.Verify.Accepts.{signed_content}
use nano_dtls.X509.{Cert}
use nano_dtls.X509.Chain.{verify_chain}
use nano_dtls.Net.{done, lift}
use nano_dtls.Net.Delivered.{network, step-returns, lift-returns, recv-network, send-network}
use nano_dtls.Driver.{Crypto, Opened, Outgoing, open_protected, server_context}
use nano_dtls.Driver.Delivery.{Seals, InStep}
use nano_dtls.Client.{
  Session, Trusted, on_encrypted_extensions, parse_certificates, on_certificate,
  on_certificate_verify, on_finished, client_finished,
}
use nano_dtls.Client
use nano_dtls.Client.Run.{recv_protected_handshake}
use nano_dtls.Server.{encrypted_extensions, certificate, certificate_verify, server_finished}
use nano_dtls.Server
use nano_dtls.Server.Run.{send_protected}
use nano_dtls.Complete.Hello.{client_session}
use nano_dtls.Complete.Identity.{
  Exchange, encrypted_extensions-Exchange, certificate-Exchange, certificate_verify-Exchange,
}
use nano_dtls.Complete.Finished.{server_finished-Exchange, client_finished-Exchange}

-- The server's certificates are a chain that the client trusts, in a message that one record can
-- hold.
pub record Trustworthy (crypto : Crypto) (client : Client.Config) (server : Server.Config)
    (leaf : Cert) : Type 0 where
  pub rest : List Cert
  pub some : 0 < length server.certs
  pub few : length server.certs ≤ max_certs
  pub short : hdr_len + length (certificate_message server.certs) < max_inner
  pub bytes : AllBytes server.certs
  pub parsed : parse_certificates crypto server.certs ≡ ok (leaf ∷ rest)
  pub trusted :
      verify_chain crypto.ecdsa_verify (leaf ∷ rest) client.trust_anchor client.at_time ≡ ok tt

-- The server signs every hash with numbers that verify with the leaf's key.
pub record Signs (crypto : Crypto) (server : Server.Config) (leaf : Cert) : Type 0 where
  pub r : Bytes → Bytes
  pub s : Bytes → Bytes
  pub r_sized : (hash : Bytes) → length (r hash) ≡ 32
  pub s_sized : (hash : Bytes) → length (s hash) ≡ 32
  pub r_bytes : (hash : Bytes) → IsBytes (r hash)
  pub s_bytes : (hash : Bytes) → IsBytes (s hash)
  pub signs : (hash : Bytes) → server.sign_fn hash ≡ ok (r hash, s hash)
  pub verifies :
      (hash : Bytes)
      → crypto.ecdsa_verify leaf.pubkey_qx leaf.pubkey_qy hash (r hash) (s hash) ≡ ok tt

pub recv_protected_handshake-network :
    (crypto : Crypto) (u : Unprotection) (d : Bytes) (ds rs sent : List Bytes) (opened : Opened)
    → open_protected crypto u d ≡ ok opened
    → recv_protected_handshake crypto u (network (d ∷ ds) rs sent)
      ≡ done opened (network ds rs sent)
unfolding recv_protected_handshake
recv_protected_handshake-network crypto u d ds rs sent opened e =
    step-returns _ (recv-network d ds rs sent) (ap (λ m. lift m (network ds rs sent)) e)

pub send_protected-network :
    (message : Result Outgoing) (ds rs sent : List Bytes) (o : Outgoing)
    → message ≡ ok o
    → send_protected message (network ds rs sent) ≡ done o (network ds rs (sent ++ o.out ∷ []))
unfolding send_protected
send_protected-network message ds rs sent o e =
    lift-returns _ e (step-returns _ (send-network o.out ds rs sent) refl)

-- New keys for both directions are in step.
fresh :
    (key iv : Bytes)
    → length key ≡ key_len
    → length iv ≡ nonce_len
    → InStep (protection_init key iv 2) (unprotection_init key iv 2) 0
fresh key iv hk hn = record {
  key_sized = hk;
  iv_sized = hn;
  paired = (refl, refl, refl, omega arith);
  next = refl;
  highest = omega arith;
  few = omega arith;
}

-- The keys and the initial vectors have their sizes.
pub record Keyed (keys : HandshakeKeys) : Type 0 where
  pub client_key : length keys.client_write_key ≡ key_len
  pub client_iv : length keys.client_write_iv ≡ nonce_len
  pub server_key : length keys.server_write_key ≡ key_len
  pub server_iv : length keys.server_write_iv ≡ nonce_len

-- The five protected messages of a handshake, in their order.
pub record Conversation (crypto : Crypto) (client : Client.Config) (server : Server.Config)
    (leaf : Cert) (keys : HandshakeKeys) (t : Transcript) : Type 0 where
  pub e1 :
      Exchange crypto
        (unprotection_init keys.server_write_key keys.server_write_iv 2)
        0
        (encrypted_extensions crypto
          (protection_init keys.server_write_key keys.server_write_iv 2)
          t)
        (on_encrypted_extensions t)
        (λ t'. t')
  pub e2 :
      Exchange crypto e1.opened.reader 1
        (certificate crypto server e1.out.writer e1.out.transcript)
        (on_certificate crypto client e1.out.transcript)
        (λ t'. record { leaf = leaf; transcript = t' })
  pub e3 :
      Exchange crypto e2.opened.reader 2
        (certificate_verify crypto server e2.out.writer e2.out.transcript)
        (on_certificate_verify crypto (record { leaf = leaf; transcript = e2.out.transcript }))
        (λ t'. t')
  pub e4 :
      Exchange crypto e3.opened.reader 3
        (server_finished crypto keys.server_handshake_traffic_secret e3.out.writer
          e3.out.transcript)
        (on_finished keys.server_handshake_traffic_secret e3.out.transcript)
        (λ t'. t')
  pub e5 :
      Exchange crypto
        (unprotection_init keys.client_write_key keys.client_write_iv 2)
        0
        (client_finished crypto (client_session keys t) e4.out.transcript)
        (on_finished keys.client_handshake_traffic_secret e4.out.transcript)
        (λ t'. t')

pub conversation :
    (crypto : Crypto) (client : Client.Config) (server : Server.Config) (leaf : Cert)
    (keys : HandshakeKeys) (t : Transcript)
    → Keyed keys
    → Seals crypto.aead
    → Trustworthy crypto client server leaf
    → Signs crypto server leaf
    → Conversation crypto client server leaf keys t
conversation crypto client server leaf keys t keyed seals trust signing =
    let w0 = protection_init keys.server_write_key keys.server_write_iv 2 in
    let u0 = unprotection_init keys.server_write_key keys.server_write_iv 2 in
    let s0 = fresh keys.server_write_key keys.server_write_iv keyed.server_key keyed.server_iv in
    let e1 = encrypted_extensions-Exchange crypto seals w0 u0 t 0 s0 (omega arith) in
    let e2 =
      certificate-Exchange crypto seals e1.out.writer e1.opened.reader e1.out.transcript 1
        e1.in_step (omega arith) client server leaf trust.rest trust.some trust.few trust.short
        trust.bytes trust.parsed trust.trusted in
    let hash = sha256 (signed_content server_context (snapshot e2.out.transcript)) in
    let e3 =
      certificate_verify-Exchange crypto seals e2.out.writer e2.opened.reader e2.out.transcript 2
        e2.in_step (omega arith) server leaf (signing.r hash) (signing.s hash)
        (signing.r_sized hash) (signing.s_sized hash) (signing.r_bytes hash) (signing.s_bytes hash)
        (signing.signs hash) (signing.verifies hash) in
    let e4 =
      server_finished-Exchange crypto seals e3.out.writer e3.opened.reader e3.out.transcript 3
        e3.in_step (omega arith) keys.server_handshake_traffic_secret in
    let w1 = protection_init keys.client_write_key keys.client_write_iv 2 in
    let u1 = unprotection_init keys.client_write_key keys.client_write_iv 2 in
    record {
      e1 = e1;
      e2 = e2;
      e3 = e3;
      e4 = e4;
      e5 =
          client_finished-Exchange crypto seals w1 u1 e4.out.transcript 0
            (fresh keys.client_write_key keys.client_write_iv keyed.client_key keyed.client_iv)
            (omega arith) (client_session keys t) refl;
    }
