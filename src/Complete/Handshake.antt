-- ===== src/Complete/Handshake.antt =====
-- The handshake of two honest ends over a network that delivers.
use nano_dtls.Base.{
  ◌≤◌, ◌<◌, ◌≡◌, false, ap, arith, List, [], ◌∷◌, ◌++◌, Bytes, length, ok, truncated, Status,
}
use nano_dtls.Transcript.{Transcript, snapshot, empty, add}
use nano_dtls.KeySchedule.{HandshakeKeys}
use nano_dtls.KeySchedule.Derive.{derive_handshake_keys_lem}
use nano_dtls.Hmac.Nested.{length-final}
use nano_dtls.Hkdf.{hash_len}
use nano_dtls.Messages.{max_certs}
use nano_dtls.Hello.{Params}
use nano_dtls.Hello.Format.{server_message}
use nano_dtls.X509.{Cert}
use nano_dtls.Net.{done, retry, lift}
use nano_dtls.Net.Delivered.{
  network, step-returns, lift-returns, recv-network, send-network, random_bytes-network,
}
use nano_dtls.Driver.{dtls13, Crypto, Received, open_plaintext, hs_server_hello, all_zero}
use nano_dtls.Driver.Delivery.{Seals, received_of}
use nano_dtls.Driver.Hellos.{hello_datagram, open_plaintext-hello_datagram, length-server_message}
use nano_dtls.Client
use nano_dtls.Client.Run.{recv_plaintext_handshake, hello_attempts, client_handshake, max_attempts}
use nano_dtls.Server.{check_config}
use nano_dtls.Server
use nano_dtls.Server.Run.{server_handshake}
use nano_dtls.Complete.Hello.{
  Sized, hello_message, reply_message, transcript_of, keys_of, client_flight-honest,
  on_client_hello-honest, server_hello-honest, on_server_hello-honest, server_session-honest,
}
use nano_dtls.Complete.Run.{server_flight, authenticate-runs, serve-runs}
use nano_dtls.Complete.Phases.{Keyed, Trustworthy, Signs, Conversation, conversation}

-- The two ends and their random bytes: the keys fit together, and give a secret that is not zero.
pub record Ends (crypto : Crypto) : Type 0 where
  pub client_key : Bytes
  pub server_key : Bytes
  pub client_hello : Params
  pub server_hello : Params
  pub shared : Bytes
  pub client_sized : Sized client_hello
  pub server_sized : Sized server_hello
  pub client_based : crypto.x25519_base client_key ≡ ok client_hello.x25519_public_key
  pub server_based : crypto.x25519_base server_key ≡ ok server_hello.x25519_public_key
  pub client_secret : crypto.x25519_scalarmult client_key server_hello.x25519_public_key ≡ ok shared
  pub server_secret : crypto.x25519_scalarmult server_key client_hello.x25519_public_key ≡ ok shared
  pub contributory : all_zero shared ≡ false

-- What the ends send each other; each of them receives exactly what the other one sent, and returns.
pub record Completed (crypto : Crypto) (client : Client.Config) (server : Server.Config)
    (leaf : Cert) (ends : Ends crypto) : Type 0 where
  pub to_server : List Bytes
  pub to_client : List Bytes
  pub keys : HandshakeKeys
  pub client_returns :
      client_handshake crypto client
        (network to_client (ends.client_hello.random ∷ ends.client_key ∷ []) [])
      ≡ done (record { keys = keys; server_leaf = leaf }) (network [] [] to_server)
  pub server_returns :
      server_handshake crypto server
        (network to_server (ends.server_key ∷ ends.server_hello.random ∷ []) [])
      ≡ done keys (network [] [] to_client)

hello_attempts-first :
    (datagram reply : Bytes) (ds rs sent : List Bytes) (received : Received) (st : Status)
    → open_plaintext reply ≡ ok received
    → hello_attempts max_attempts st datagram (network (reply ∷ ds) rs sent)
      ≡ done received (network ds rs (sent ++ datagram ∷ []))
unfolding hello_attempts recv_plaintext_handshake
hello_attempts-first datagram reply ds rs sent received st opened =
    ap (λ r. retry r (λ e n'. hello_attempts 4 e datagram n'))
      (step-returns _ (send-network datagram (reply ∷ ds) rs sent) (
        step-returns _ (recv-network reply ds rs (sent ++ datagram ∷ []))
          (ap (λ m. lift m (network ds rs (sent ++ datagram ∷ []))) opened)))

module _ (crypto : Crypto) (client : Client.Config) (server : Server.Config) (leaf : Cert)
    (ends : Ends crypto)
    (c : let t = transcript_of ends.client_hello ends.server_hello in
      Conversation crypto client server leaf
        (keys_of ends.shared ends.client_hello ends.server_hello)
        t) where
  client_handshake-runs :
      client_handshake crypto client (
        network
          (hello_datagram (reply_message ends.server_hello) ∷ server_flight c)
          (ends.client_hello.random ∷ ends.client_key ∷ [])
          [])
      ≡ done
          (record {
            keys = keys_of ends.shared ends.client_hello ends.server_hello;
            server_leaf = leaf;
          })
          (network [] [] (hello_datagram (hello_message ends.client_hello) ∷ c.e5.out.out ∷ []))
  unfolding client_handshake
  client_handshake-runs =
      let params = ends.client_hello in
      let answer = ends.server_hello in
      let t = transcript_of params answer in
      let keys = keys_of ends.shared params answer in
      let reply = hello_datagram (reply_message answer) in
      let arriving : List Bytes = reply ∷ server_flight c in
      let hello = hello_datagram (hello_message params) in
      let short =
        length-server_message answer ends.server_sized.random_sized ends.server_sized.key_sized in
      step-returns _ (random_bytes-network params.random arriving (ends.client_key ∷ []) []) (
        step-returns _ (random_bytes-network ends.client_key arriving [] []) (
          lift-returns _
            (client_flight-honest crypto ends.client_key params ends.client_sized ends.client_based)
            (step-returns _
              (hello_attempts-first hello reply (server_flight c) [] []
                (received_of hs_server_hello 0 (server_message answer)) truncated
                (open_plaintext-hello_datagram hs_server_hello 0 (server_message answer)
                  (omega arith) (omega arith)))
              (lift-returns _
                (on_server_hello-honest crypto ends.client_key ends.shared params answer
                  ends.server_sized ends.client_secret ends.contributory)
                (authenticate-runs crypto client server leaf keys t c [] (hello ∷ []))))))

  server_handshake-runs :
      (check_config server ≡ ok tt)
      → server_handshake crypto server (
          network
            (hello_datagram (hello_message ends.client_hello) ∷ c.e5.out.out ∷ [])
            (ends.server_key ∷ ends.server_hello.random ∷ [])
            [])
        ≡ done
            (keys_of ends.shared ends.client_hello ends.server_hello)
            (network [] [] (hello_datagram (reply_message ends.server_hello) ∷ server_flight c))
  unfolding server_handshake
  server_handshake-runs configured =
      let params = ends.client_hello in
      let answer = ends.server_hello in
      let t = transcript_of params answer in
      let keys = keys_of ends.shared params answer in
      let hello = hello_datagram (hello_message params) in
      let reply = hello_datagram (reply_message answer) in
      let last : List Bytes = c.e5.out.out ∷ [] in
      lift-returns _ configured (
        step-returns _ (recv-network hello last (ends.server_key ∷ answer.random ∷ []) []) (
          lift-returns _ (on_client_hello-honest params ends.client_sized) (
            step-returns _ (random_bytes-network ends.server_key last (answer.random ∷ []) []) (
              step-returns _ (random_bytes-network answer.random last [] []) (
                lift-returns _
                  (server_hello-honest crypto ends.server_key answer
                    (add empty (hello_message params)) ends.server_sized ends.server_based)
                  (step-returns _ (send-network reply last [] []) (
                    lift-returns _
                      (server_session-honest crypto ends.server_key params.x25519_public_key
                        ends.shared t ends.server_secret ends.contributory)
                      (serve-runs crypto client server leaf keys t c [] (reply ∷ [])))))))))

check_config-ok :
    (server : Server.Config)
    → 0 < length server.certs
    → length server.certs ≤ max_certs
    → check_config server ≡ ok tt
unfolding check_config
check_config-ok server some few = ground arith

length-snapshot : (t : Transcript) → length (snapshot t) ≡ hash_len
unfolding snapshot
length-snapshot t = length-final t.ctx

-- A client and a server over a network that loses and changes nothing complete the handshake: each
-- receives exactly what the other one sent, both return `ND_OK` with the same keys, and the client
-- with the server's leaf. The AEAD seals every plaintext, with a key and a
-- nonce of their sizes, and opens what it sealed; the two key pairs
-- give one secret, which is not zero; the server's certificates are one to four that the client's
-- parser reads and that verify up to its trust anchor, in a message of bytes below the record layer's
-- limit; and the server's signatures verify with the leaf's key.
pub handshake-Completed :
    (crypto : Crypto) (client : Client.Config) (server : Server.Config) (leaf : Cert)
    (ends : Ends crypto)
    → Seals crypto.aead
    → Trustworthy crypto client server leaf
    → Signs crypto server leaf
    → Completed crypto client server leaf ends
handshake-Completed crypto client server leaf ends seals trust signing =
    let t = transcript_of ends.client_hello ends.server_hello in
    let keys = keys_of ends.shared ends.client_hello ends.server_hello in
    let hash = snapshot t in
    let (derived, client_key, client_iv, server_key, server_iv) =
      derive_handshake_keys_lem dtls13 ends.shared hash (omega arith) (length-snapshot t) in
    let keyed : Keyed keys = record {
      client_key = client_key;
      client_iv = client_iv;
      server_key = server_key;
      server_iv = server_iv;
    } in
    let c = conversation crypto client server leaf keys t keyed seals trust signing in
    record {
      to_server = hello_datagram (hello_message ends.client_hello) ∷ c.e5.out.out ∷ [];
      to_client = hello_datagram (reply_message ends.server_hello) ∷ server_flight c;
      keys = keys;
      client_returns = client_handshake-runs crypto client server leaf ends c;
      server_returns =
          server_handshake-runs crypto client server leaf ends c
            (check_config-ok server trust.some trust.few);
    }
