-- ===== src/Server/Messages.antt =====
-- What the server's steps return: its messages are in the transcript in the order they are sent.
use nano_dtls.Base.{
  ℕ, arith, ◌≡◌, sym, ap, ◌∙◌, ◌+◌, ◌!=◌, List, Bytes, length, ok, bind-ok, ok-injective,
}
use nano_dtls.Protect.{Protection, Unprotected, protect}
use nano_dtls.Record.Plaintext
use nano_dtls.Handshake.Header
use nano_dtls.Sha256.{sha256}
use nano_dtls.Transcript.{Transcript, add, snapshot, empty}
use nano_dtls.Transcript.Snapshot.{add_all, snapshot-add_all}
use nano_dtls.Hkdf.{hash_len}
use nano_dtls.KeySchedule.{finished_compute, finished_verify}
use nano_dtls.Hello.{server_hello_serialize}
use nano_dtls.Hello.Parse.{client_hello_parse}
use nano_dtls.Messages.{encrypted_extensions_serialize, certificate_serialize}
use nano_dtls.Messages.Verify.{certificate_verify_content, content_max}
use nano_dtls.Asn1.{write_ecdsa_sig_value}
use nano_dtls.Net.{or_bad_arg}
use nano_dtls.Driver.{
  Crypto, max_msg, handshake_type, hs_client_hello, hs_server_hello, hs_finished, dtls13,
  server_context, wrap_and_add, hello_record, open_plaintext, read_handshake, expect, agree,
  seal_message, Outgoing,
}
use nano_dtls.Driver.Accepted.{
  Message, FinishedAccepted, Agreed, agree-Agreed, whole, guard-passed, call-passed,
  open_plaintext-message, read_handshake-message, wrap_and_add-transcript,
}
use nano_dtls.Server.{
  Config, Greeted, Reply, Session, on_client_hello, server_hello, server_session,
  encrypted_extensions, certificate, verify_body, certificate_verify, server_finished,
  on_client_finished,
}
use mathlib.Core.Path.{subst}
use nano_dtls.Base.{refl}
use nano_dtls.Protect.{protection_init, unprotection_init}
use nano_dtls.KeySchedule.{HandshakeKeys}
use nano_dtls.Driver.{Received}
use nano_dtls.Net.Traffic.{}

-- A whole ClientHello was read, and it is all that the transcript holds.
pub record Greeting (datagram : Bytes) (greeted : Greeted) : Type 0 where
  pub message : Bytes
  pub body : Bytes
  pub is_hello : Message hs_client_hello message body
  pub read : client_hello_parse body ≡ ok greeted.hello
  pub held : greeted.transcript ≡ add empty message
  pub carried : (r : Received) × (open_plaintext datagram ≡ ok r) × (r.message ≡ message)

pub on_client_hello-Greeting :
    (datagram : Bytes) (greeted : Greeted)
    → on_client_hello datagram ≡ ok greeted
    → Greeting datagram greeted
unfolding on_client_hello
on_client_hello-Greeting datagram greeted h =
    let (received, opened, h1) = bind-ok (open_plaintext datagram) _ greeted h in
    let (expected, h2) = call-passed (expect hs_client_hello received) _ greeted h1 in
    let (hello, read, h3) = bind-ok (client_hello_parse received.fragment) _ greeted h2 in
    let parsed = open_plaintext-message datagram received opened in
    record {
      message = received.message;
      body = received.fragment;
      is_hello = whole hs_client_hello received parsed expected;
      read = read ∙ ap ok (ap Greeted.hello (ok-injective _ greeted h3));
      held = sym (ap Greeted.transcript (ok-injective _ greeted h3));
      carried = (received, opened, refl);
    }

pub server_hello-transcript :
    (crypto : Crypto) (server_priv random : Bytes) (t : Transcript) (reply : Reply)
    → server_hello crypto server_priv random t ≡ ok reply
    → (message : Bytes) × (reply.transcript ≡ add t message)
      × (Plaintext.serialize hello_record message max_msg ≡ ok reply.datagram)
unfolding server_hello
server_hello-transcript crypto server_priv random t reply h =
    let (public_key, e1, h1) = bind-ok (or_bad_arg (crypto.x25519_base server_priv)) _ reply h in
    let (body, e2, h2) =
      bind-ok
        (server_hello_serialize (record { random = random; x25519_public_key = public_key }) 512) _
        reply h1 in
    let (wrapped, e3, h3) =
      bind-ok (wrap_and_add t hs_server_hello 0 body (512 + Header.hdr_len)) _ reply h2 in
    let (datagram, e4, h4) =
      bind-ok (Plaintext.serialize hello_record wrapped.out max_msg) _ reply h3 in
    (
      wrapped.out,
      sym (ap Reply.transcript (ok-injective _ reply h4))
          ∙ wrap_and_add-transcript t hs_server_hello 0 body (512 + Header.hdr_len) wrapped e3,
      e4 ∙ ap ok (ap Reply.datagram (ok-injective _ reply h4)),
    )

pub server_session-Agreed :
    (crypto : Crypto) (server_priv peer_key : Bytes) (t : Transcript) (session : Session)
    (messages : List Bytes)
    → t ≡ add_all messages empty
    → server_session crypto server_priv peer_key t ≡ ok session
    → Agreed crypto server_priv peer_key messages session.keys
      × (session.transcript ≡ t)
      × (session.server_write
          ≡ protection_init session.keys.server_write_key session.keys.server_write_iv 2)
      × (session.client_read
          ≡ unprotection_init session.keys.client_write_key session.keys.client_write_iv 2)
unfolding server_session
server_session-Agreed crypto server_priv peer_key t session messages so_far h =
    let (keys, agreed, h1) = bind-ok (agree crypto server_priv peer_key t) _ session h in
    let same : keys ≡ session.keys = ap Session.keys (ok-injective _ session h1) in
    (
      agree-Agreed crypto server_priv peer_key messages session.keys
          (ap (agree crypto server_priv peer_key) (sym so_far) ∙ agreed ∙ ap ok same),
      sym (ap Session.transcript (ok-injective _ session h1)),
      sym (ap Session.server_write (ok-injective _ session h1))
          ∙ ap (λ (k : HandshakeKeys). protection_init k.server_write_key k.server_write_iv 2) same,
      sym (ap Session.client_read (ok-injective _ session h1))
          ∙ ap (λ (k : HandshakeKeys). unprotection_init k.client_write_key k.client_write_iv 2)
              same,
    )

-- The messages behind a transcript, one more than before, which the writer protected.
abbrev pub Grown : Crypto → Protection → Transcript → Outgoing → Type 0
Grown crypto w t o =
    (message : Bytes) × (o.transcript ≡ add t message)
    × (protect crypto.aead w handshake_type message max_msg
        ≡ ok (record { out = o.out; state = o.writer }))

seal_message-Grown :
    (crypto : Crypto) (w : Protection) (t : Transcript) (msg_type seq : ℕ) (body : Bytes) (n : ℕ)
    (o : Outgoing)
    → seal_message crypto w t msg_type seq body n ≡ ok o
    → Grown crypto w t o
unfolding seal_message
seal_message-Grown crypto w t msg_type seq body n o h =
    let (wrapped, e1, h1) = bind-ok (wrap_and_add t msg_type seq body n) _ o h in
    let (sealed, e2, h2) =
      bind-ok (protect crypto.aead w handshake_type wrapped.out max_msg) _ o h1 in
    (
      wrapped.out,
      sym (ap Outgoing.transcript (ok-injective _ o h2))
          ∙ wrap_and_add-transcript t msg_type seq body n wrapped e1,
      e2 ∙ (λ i. ok (record {
        out = Outgoing.out (ok-injective _ o h2 i);
        state = Outgoing.writer (ok-injective _ o h2 i);
      })),
    )

pub encrypted_extensions-Grown :
    (crypto : Crypto) (w : Protection) (t : Transcript) (o : Outgoing)
    → encrypted_extensions crypto w t ≡ ok o
    → Grown crypto w t o
unfolding encrypted_extensions
encrypted_extensions-Grown crypto w t o h =
    let (body, e, h1) = bind-ok (encrypted_extensions_serialize 2) _ o h in
    seal_message-Grown crypto w t _ _ body _ o h1

pub certificate-Grown :
    (crypto : Crypto) (config : Config) (w : Protection) (t : Transcript) (o : Outgoing)
    → certificate crypto config w t ≡ ok o
    → Grown crypto w t o
unfolding certificate
certificate-Grown crypto config w t o h =
    let (body, e, h1) = bind-ok (certificate_serialize config.certs max_msg) _ o h in
    seal_message-Grown crypto w t _ _ body _ o h1

pub certificate_verify-Grown :
    (crypto : Crypto) (config : Config) (w : Protection) (t : Transcript) (o : Outgoing)
    → certificate_verify crypto config w t ≡ ok o
    → Grown crypto w t o
unfolding certificate_verify
certificate_verify-Grown crypto config w t o h =
    let (content, e1, h1) =
      bind-ok (certificate_verify_content server_context (snapshot t) content_max) _ o h in
    let (sig, e2, h2) = bind-ok (config.sign_fn (sha256 content)) _ o h1 in
    let (der, e3, h3) = bind-ok (write_ecdsa_sig_value sig.0 sig.1 80) _ o h2 in
    seal_message-Grown crypto w t _ _ (verify_body der) _ o h3

pub server_finished-Grown :
    (crypto : Crypto) (secret : Bytes) (w : Protection) (t : Transcript) (o : Outgoing)
    → server_finished crypto secret w t ≡ ok o
    → Grown crypto w t o
unfolding server_finished
server_finished-Grown crypto secret w t o h =
    let (data_bytes, e, h1) = bind-ok (finished_compute dtls13 secret (snapshot t)) _ o h in
    seal_message-Grown crypto w t _ _ data_bytes _ o h1

read_handshake-same :
    (message : Bytes) (received : Received)
    → read_handshake message ≡ ok received
    → received.message ≡ message
unfolding read_handshake
read_handshake-same message received h =
    let (parsed, read, h1) = bind-ok (Header.parse message) _ received h in
    sym (ap Received.message (ok-injective _ received h1))

-- The client's Finished has the MAC of the messages before.
pub on_client_finished-FinishedAccepted :
    (secret : Bytes) (t : Transcript) (opened : Unprotected) (messages : List Bytes)
    → t ≡ add_all messages empty
    → on_client_finished secret t opened ≡ ok tt
    → FinishedAccepted secret messages opened.plaintext
unfolding on_client_finished
on_client_finished-FinishedAccepted secret t opened messages so_far h =
    let (typed, h1) = guard-passed (opened.content_type != handshake_type) _ _ tt h in
    let (received, read, h2) = bind-ok (read_handshake opened.plaintext) _ tt h1 in
    let (expected, h3) = call-passed (expect hs_finished received) _ tt h2 in
    let (sized, verified) = guard-passed (length received.fragment != hash_len) _ _ tt h3 in
    let same : received.message ≡ opened.plaintext =
      read_handshake-same opened.plaintext received read in
    subst (FinishedAccepted secret messages) same (record {
      body = received.fragment;
      is_finished =
          whole hs_finished received (read_handshake-message opened.plaintext received read)
            expected;
      sized = ground (arith, sized);
      verified =
          ap (λ hash. finished_verify dtls13 secret hash received.fragment)
            (sym (ap snapshot so_far ∙ snapshot-add_all messages))
          ∙ verified;
    })
