-- ===== src/Server/Secure.antt =====
-- What `nd_server_handshake` has checked when it returns `ND_OK`.
use nano_dtls.Base.{◌≡◌, ap, ◌∙◌, List, [], ◌∷◌, Bytes, ok}
use mathlib.Core.Path.{subst}
use nano_dtls.Transcript.{add, empty}
use nano_dtls.Transcript.Snapshot.{add_all}
use nano_dtls.KeySchedule.{HandshakeKeys}
use nano_dtls.Hello.{Params}
use nano_dtls.Hello.Parse.{client_hello_parse}
use nano_dtls.Net.{Net, done, recv, send, random_bytes}
use nano_dtls.Net.Done.{step-done, lift-done}
use nano_dtls.Driver.{Crypto, hs_client_hello}
use nano_dtls.Driver.Accepted.{Message, FinishedAccepted, Agreed}
use nano_dtls.Server.{Config, check_config, on_client_hello, server_hello, server_session}
use nano_dtls.Server.Run.{server_handshake}
use nano_dtls.Server.Messages.{
  on_client_hello-Greeting, server_hello-transcript, server_session-Agreed,
}
use nano_dtls.Base.{refl, ◌++◌, Result}
use nano_dtls.Record.Plaintext
use nano_dtls.Protect.{Unprotected, unprotect, protection_init, unprotection_init}
use nano_dtls.Net.Traffic.{Moved, Moved-then, recv-Moved, send-Moved, random_bytes-Moved}
use nano_dtls.Driver.{Received, open_plaintext, hello_record, max_msg}
use nano_dtls.Driver.Accepted.{Sealing}
use nano_dtls.Base.{sym}
use nano_dtls.Server.Phases.{serve-Served}

-- The messages of a handshake that the client has confirmed.
pub record Confirmed (crypto : Crypto) (n n' : Net) (keys : HandshakeKeys) : Type 0 where
  pub private_key : Bytes
  pub params : Params
  pub hello : Bytes
  pub hello_body : Bytes
  pub server_hello : Bytes
  pub extensions : Bytes
  pub certificate : Bytes
  pub verify : Bytes
  pub finished : Bytes
  pub client_finished : Bytes
  pub greeting : Bytes
  pub answer : Bytes
  pub d1 : Bytes
  pub d2 : Bytes
  pub d3 : Bytes
  pub d4 : Bytes
  pub skipped : List (Result Bytes)
  pub arrival : Bytes
  pub traffic :
      Moved n n' (ok greeting ∷ (skipped ++ ok arrival ∷ [])) (answer ∷ d1 ∷ d2 ∷ d3 ∷ d4 ∷ [])
  pub greeted : (r : Received) × (open_plaintext greeting ≡ ok r) × (r.message ≡ hello)
  pub answered : Plaintext.serialize hello_record server_hello max_msg ≡ ok answer
  pub sealing :
      Sealing crypto
        (protection_init keys.server_write_key keys.server_write_iv 2)
        ((d1, extensions) ∷ (d2, certificate) ∷ (d3, verify) ∷ (d4, finished) ∷ [])
  pub decrypted :
      (o : Unprotected) × (unprotect crypto.aead
          (unprotection_init keys.client_write_key keys.client_write_iv 2)
          arrival
          max_msg
        ≡ ok o)
      × (o.plaintext ≡ client_finished)
  pub is_hello : Message hs_client_hello hello hello_body
  pub read : client_hello_parse hello_body ≡ ok params
  pub agreed : Agreed crypto private_key params.x25519_public_key (hello ∷ server_hello ∷ []) keys
  pub finished_accepted :
      FinishedAccepted keys.client_handshake_traffic_secret
        (hello ∷ server_hello ∷ extensions ∷ certificate ∷ verify ∷ finished ∷ [])
        client_finished

-- Where the server returns `ND_OK`, whatever the socket delivered, the client took part in this
-- handshake: the first datagram that was received is a ClientHello, whose key share gives a secret
-- that is not zero; the returned keys are derived from that secret and the hash of the two hellos;
-- what was sent is the ServerHello and four messages sealed with the server's key; and the last
-- datagram that was received opens, with the client's key, to a Finished message that was verified,
-- with the client's secret, against the hash of the ClientHello and of those five messages.
pub server_handshake-Confirmed :
    (crypto : Crypto) (config : Config) (n n' : Net) (keys : HandshakeKeys)
    → server_handshake crypto config n ≡ done keys n'
    → Confirmed crypto n n' keys
unfolding server_handshake
server_handshake-Confirmed crypto config n n' keys h =
    let (u, e1, h1) = lift-done (check_config config) _ n n' keys h in
    let (datagram, n1, e2, h2) = step-done recv _ n n' keys h1 in
    let (greeted, e3, h3) = lift-done (on_client_hello datagram) _ n1 n' keys h2 in
    let (server_priv, n2, e4, h4) = step-done random_bytes _ n1 n' keys h3 in
    let (random, n3, e5, h5) = step-done random_bytes _ n2 n' keys h4 in
    let (reply, e6, h6) =
      lift-done (server_hello crypto server_priv random greeted.transcript) _ n3 n' keys h5 in
    let (v, n4, e7, h7) = step-done (send reply.datagram) _ n3 n' keys h6 in
    let peer_key = greeted.hello.x25519_public_key in
    let (session, e8, h8) =
      lift-done (server_session crypto server_priv peer_key reply.transcript) _ n4 n' keys h7 in
    let greeting = on_client_hello-Greeting datagram greeted e3 in
    let hello = greeting.message in
    let (answer, s1, written) =
      server_hello-transcript crypto server_priv random greeted.transcript reply e6 in
    let known : reply.transcript ≡ add_all (hello ∷ answer ∷ []) empty =
      s1 ∙ ap (λ t. add t answer) greeting.held in
    let (agreed, s2, writer, reader) =
      server_session-Agreed crypto server_priv peer_key reply.transcript session
        (hello ∷ answer ∷ []) known e8 in
    let after = serve-Served crypto config session hello answer n4 n' keys (s2 ∙ known) h8 in
    let heard = recv-Moved n n1 datagram e2 in
    let drawn =
      Moved-then n1 n2 n3 [] [] [] [] (random_bytes-Moved n1 n2 server_priv e4)
        (random_bytes-Moved n2 n3 random e5) in
    let told = send-Moved n3 n4 reply.datagram e7 in
    let answers = after.skipped ++ ok after.arrival ∷ [] in
    let flight = after.d1 ∷ after.d2 ∷ after.d3 ∷ after.d4 ∷ [] in
    record {
      private_key = server_priv;
      greeting = datagram;
      answer = reply.datagram;
      d1 = after.d1;
      d2 = after.d2;
      d3 = after.d3;
      d4 = after.d4;
      skipped = after.skipped;
      arrival = after.arrival;
      traffic = Moved-then n n1 n' (ok datagram ∷ []) answers [] (reply.datagram ∷ flight) heard (
          Moved-then n1 n3 n' [] answers [] (reply.datagram ∷ flight) drawn
            (Moved-then n3 n4 n' [] answers (reply.datagram ∷ []) flight told after.moved));
      greeted = greeting.carried;
      answered = written;
      sealing =
          subst
            (λ w. Sealing crypto w (
              (after.d1, after.extensions)
              ∷ (after.d2, after.certificate)
              ∷ (after.d3, after.verify)
              ∷ (after.d4, after.finished)
              ∷ []))
            (writer
              ∙ ap (λ (k : HandshakeKeys). protection_init k.server_write_key k.server_write_iv 2)
                  after.returned)
            after.sealing;
      decrypted = (
        after.opened,
        ap (λ u. unprotect crypto.aead u after.arrival max_msg)
              (sym (
                reader
                ∙ ap
                    (λ (k : HandshakeKeys).
                      unprotection_init k.client_write_key k.client_write_iv 2)
                    after.returned))
            ∙ after.decrypted,
        refl,
      );
      params = greeted.hello;
      hello = hello;
      hello_body = greeting.body;
      server_hello = answer;
      extensions = after.extensions;
      certificate = after.certificate;
      verify = after.verify;
      finished = after.finished;
      client_finished = after.opened.plaintext;
      is_hello = greeting.is_hello;
      read = greeting.read;
      agreed =
          subst (Agreed crypto server_priv peer_key (hello ∷ answer ∷ [])) after.returned agreed;
      finished_accepted =
          subst
            (λ (k : HandshakeKeys).
              FinishedAccepted k.client_handshake_traffic_secret
                (hello ∷ answer ∷ after.extensions ∷ after.certificate ∷ after.verify
                  ∷ after.finished ∷ [])
                after.opened.plaintext)
            after.returned after.accepted;
    }
