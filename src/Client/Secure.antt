-- ===== src/Client/Secure.antt =====
-- What `nd_client_handshake` has checked when it returns `ND_OK`.
use mathlib.Core.Path.{subst}
use nano_dtls.Base.{◌≡◌, ap, ◌∙◌, List, [], ◌∷◌, Bytes, truncated}
use nano_dtls.Net.{Net, done, random_bytes}
use nano_dtls.Net.Done.{step-done, lift-done}
use nano_dtls.KeySchedule.{HandshakeKeys}
use nano_dtls.Driver.{Crypto}
use nano_dtls.Driver.Accepted.{FinishedAccepted}
use nano_dtls.Client.{Config, client_flight, on_server_hello}
use nano_dtls.Client.Run.{ClientResult, client_handshake, max_attempts, hello_attempts}
use nano_dtls.Client.Messages.{client_flight-transcript}
use nano_dtls.Client.Safety.{HelloAccepted, on_server_hello-HelloAccepted}
use nano_dtls.Client.Identity.{ExtensionsAccepted, CertificateAccepted, VerifyAccepted}
use nano_dtls.Base.{refl, ◌++◌, ok, replicate, ℕ, Result}
use nano_dtls.Protect.{unprotection_init}
use nano_dtls.Record.Plaintext
use nano_dtls.Net.Traffic.{Moved, Moved-behind, Moved-then, random_bytes-Moved}
use nano_dtls.Driver.{Received, open_plaintext, hello_record, max_msg}
use nano_dtls.Driver.Accepted.{Opening, open_plaintext-message}
use nano_dtls.Client.Messages.{hello_attempts-Replied}
use nano_dtls.Client.Safety.{on_server_hello-reader}
use nano_dtls.Client.Phases.{authenticate-Identified}

-- The messages of a handshake that has authenticated the server.
pub record Authenticated (crypto : Crypto) (config : Config) (n n' : Net) (result : ClientResult)
    : Type 0 where
  pub private_key : Bytes
  pub hello : Bytes
  pub server_hello : Bytes
  pub extensions : Bytes
  pub certificate : Bytes
  pub verify : Bytes
  pub finished : Bytes
  pub hello_datagram : Bytes
  pub times : ℕ
  pub skipped : List (Result Bytes)
  pub reply : Bytes
  pub d1 : Bytes
  pub d2 : Bytes
  pub d3 : Bytes
  pub d4 : Bytes
  pub out : Bytes
  pub traffic :
      Moved n n'
        (skipped ++ (ok reply ∷ ok d1 ∷ ok d2 ∷ ok d3 ∷ ok d4 ∷ []))
        (replicate times hello_datagram ++ out ∷ [])
  pub hello_sent : Plaintext.serialize hello_record hello max_msg ≡ ok hello_datagram
  pub replied : (r : Received) × (open_plaintext reply ≡ ok r) × (r.message ≡ server_hello)
  pub opening :
      Opening crypto
        (unprotection_init result.keys.server_write_key result.keys.server_write_iv 2)
        ((d1, extensions) ∷ (d2, certificate) ∷ (d3, verify) ∷ (d4, finished) ∷ [])
  pub hello_accepted : HelloAccepted crypto private_key hello server_hello result.keys
  pub extensions_accepted : ExtensionsAccepted extensions
  pub certificate_accepted : CertificateAccepted crypto config certificate result.server_leaf
  pub verify_accepted :
      VerifyAccepted crypto result.server_leaf
        (hello ∷ server_hello ∷ extensions ∷ certificate ∷ [])
        verify
  pub finished_accepted :
      FinishedAccepted result.keys.server_handshake_traffic_secret
        (hello ∷ server_hello ∷ extensions ∷ certificate ∷ verify ∷ [])
        finished

-- Where the client returns `ND_OK`, whatever the socket delivered, the server was authenticated by
-- the messages that were received: behind answers that were skipped, the last five that the socket
-- gave are a ServerHello and four datagrams that open, one after the other, under the server's key of
-- the result, to four messages; the ClientHello is the one that was sent. The ServerHello names the one cipher suite and a share whose secret is not zero, and the returned
-- keys are derived from that secret and the hash of the two hellos; the certificates are a chain
-- that verifies up to the trust anchor at the given time, and the returned leaf is the first of
-- them; the leaf's key signed the hash of the messages up to the certificates; and the Finished
-- message was verified against the hash of all the messages before it.
pub client_handshake-Authenticated :
    (crypto : Crypto) (config : Config) (n n' : Net) (result : ClientResult)
    → client_handshake crypto config n ≡ done result n'
    → Authenticated crypto config n n' result
unfolding client_handshake
client_handshake-Authenticated crypto config n n' result h =
    let (random, n1, e1, h1) = step-done random_bytes _ n n' result h in
    let (private_key, n2, e2, h2) = step-done random_bytes _ n1 n' result h1 in
    let (flight, e3, h3) = lift-done (client_flight crypto random private_key) _ n2 n' result h2 in
    let (reply, n3, e4, h4) =
      step-done (hello_attempts max_attempts truncated flight.datagram) _ n2 n' result h3 in
    let (session, e5, h5) = lift-done (on_server_hello crypto flight reply) _ n3 n' result h4 in
    let (hello, begun, sent) = (client_flight-transcript crypto random private_key flight e3) in
    let r = hello_attempts-Replied max_attempts truncated flight.datagram n2 n3 reply e4 in
    let parsed = open_plaintext-message r.reply reply r.opened in
    let (accepted, so_far) =
      on_server_hello-HelloAccepted crypto flight reply session hello begun parsed e5 in
    let after =
      authenticate-Identified crypto config session hello reply.message n3 n' result so_far h5 in
    let drawn : Moved n n2 [] [] =
      Moved-then n n1 n2 [] [] [] [] (random_bytes-Moved n n1 random e1)
        (random_bytes-Moved n1 n2 private_key e2) in
    let reader = on_server_hello-reader crypto flight reply session e5 in
    let rest = ok after.d1 ∷ ok after.d2 ∷ ok after.d3 ∷ ok after.d4 ∷ [] in
    record {
      private_key = flight.private_key;
      hello_datagram = flight.datagram;
      times = r.times;
      skipped = r.skipped;
      reply = r.reply;
      d1 = after.d1;
      d2 = after.d2;
      d3 = after.d3;
      d4 = after.d4;
      out = after.out;
      traffic =
          Moved-behind n n2 n3 n' r.skipped rest (ok r.reply) (replicate r.times flight.datagram)
            (after.out ∷ []) drawn r.moved after.moved;
      hello_sent = sent;
      replied = (reply, r.opened, refl);
      opening =
          subst
            (λ u. Opening crypto u (
              (after.d1, after.extensions)
              ∷ (after.d2, after.certificate)
              ∷ (after.d3, after.verify)
              ∷ (after.d4, after.finished)
              ∷ []))
            (reader
              ∙ ap (λ (k : HandshakeKeys). unprotection_init k.server_write_key k.server_write_iv 2)
                  after.keys)
            after.opening;
      hello = hello;
      server_hello = reply.message;
      extensions = after.extensions;
      certificate = after.certificate;
      verify = after.verify;
      finished = after.finished;
      hello_accepted =
          subst (HelloAccepted crypto flight.private_key hello reply.message) after.keys accepted;
      extensions_accepted = after.extensions_accepted;
      certificate_accepted =
          subst (CertificateAccepted crypto config after.certificate) after.leaf
            after.certificate_accepted;
      verify_accepted =
          subst
            (λ l.
              VerifyAccepted crypto l
                (hello ∷ reply.message ∷ after.extensions ∷ after.certificate ∷ []) after.verify)
            after.leaf after.verify_accepted;
      finished_accepted =
          subst
            (λ (k : HandshakeKeys).
              FinishedAccepted k.server_handshake_traffic_secret
                (hello ∷ reply.message ∷ after.extensions ∷ after.certificate ∷ after.verify ∷ [])
                after.finished)
            after.keys after.finished_accepted;
    }
