-- ===== src/Complete/Hello.antt =====
-- The hellos: each end's step on what the other one sends.
use nano_dtls.Base.{
  ℕ, ◌+◌, ◌≤◌, ◌<◌, ◌≡◌, refl, sym, ap, ◌∙◌, arith, false, ◌⊎◌, inl, inr, [], ◌++◌, Bytes, length,
  Result, ok, err, bad_length, bind-returns,
}
use mathlib.Core.List.{append-nil}
use nano_dtls.Protect.{protection_init, unprotection_init}
use nano_dtls.Handshake.Header.{hdr_len}
use nano_dtls.Transcript.{Transcript, empty, add, snapshot}
use nano_dtls.KeySchedule.{HandshakeKeys}
use nano_dtls.KeySchedule.Derive.{schedule}
use nano_dtls.Hello.{Params, client_hello_serialize, server_hello_serialize, random_len, x25519_len}
use nano_dtls.Hello.Parse.{client_hello_parse, server_hello_parse}
use nano_dtls.Hello.Format.{client_message, server_message}
use nano_dtls.Hello.ClientRoundTrip.{client_hello_roundtrip}
use nano_dtls.Hello.ServerRoundTrip.{server_hello_roundtrip}
use nano_dtls.Net.{or_bad_arg}
use nano_dtls.Driver.{Crypto, hs_client_hello, hs_server_hello, dtls13, all_zero}
use nano_dtls.Driver.Delivery.{
  message_of, received_of, length-message_of, wrap_and_add-message_of, expect-received_of,
}
use nano_dtls.Driver.Hellos.{
  hello_datagram, serialize-hello_datagram, open_plaintext-hello_datagram, length-client_message,
  length-server_message, agree-schedule,
}
use nano_dtls.Client.{Flight, Session, client_flight, on_server_hello}
use nano_dtls.Server.{Reply, on_client_hello, server_hello, server_session}
use nano_dtls.Server

-- A message that fits is written, and read back.
pub fits {ℓ} :
    {A : Type ℓ} (message : Bytes) (cap_size : ℕ) (written : Result Bytes) (read answer : Result A)
    → length message ≤ cap_size
    → ((cap_size < length message) × (written ≡ err bad_length))
      ⊎ ((length message ≤ cap_size) × (written ≡ ok message) × (read ≡ answer))
    → (written ≡ ok message) × (read ≡ answer)
fits message cap_size written read answer room (inl (short, e)) = absurd (omega arith)
fits message cap_size written read answer room (inr (r, e, f)) = (e, f)

abbrev pub hello_message : Params → Bytes
hello_message params = message_of hs_client_hello 0 (client_message params)

abbrev pub reply_message : Params → Bytes
reply_message params = message_of hs_server_hello 0 (server_message params)

-- A random of 32 bytes, and a key of 32.
pub record Sized (params : Params) : Type 0 where
  pub random_sized : length params.random ≡ random_len
  pub key_sized : length params.x25519_public_key ≡ x25519_len

-- The flight with those parameters.
abbrev pub flight_of : Bytes → Params → Flight
flight_of private_key params = record {
  private_key = private_key;
  datagram = hello_datagram (hello_message params);
  transcript = add empty (hello_message params);
}

pub client_flight-honest :
    (crypto : Crypto) (private_key : Bytes) (params : Params)
    → Sized params
    → crypto.x25519_base private_key ≡ ok params.x25519_public_key
    → client_flight crypto params.random private_key ≡ ok (flight_of private_key params)
unfolding client_flight
client_flight-honest crypto private_key params sized based =
    let body = client_message params in
    let short = length-client_message params sized.random_sized sized.key_sized in
    let (written, read) =
      fits body 512 (client_hello_serialize params 512) (client_hello_parse (body ++ []))
        (ok params) short
        (client_hello_roundtrip params 512 [] sized.random_sized sized.key_sized) in
    bind-returns _ (ap or_bad_arg based) (
      bind-returns _ written (
        bind-returns _
          (wrap_and_add-message_of empty hs_client_hello 0 body (512 + hdr_len) (omega arith)
            (omega arith))
          (bind-returns _
            (serialize-hello_datagram (hello_message params)
              (omega (arith, length-message_of hs_client_hello 0 body)))
            refl)))

pub on_client_hello-honest :
    (params : Params)
    → Sized params
    → on_client_hello (hello_datagram (hello_message params))
      ≡ ok (record { hello = params; transcript = add empty (hello_message params) })
unfolding on_client_hello
on_client_hello-honest params sized =
    let body = client_message params in
    let short = length-client_message params sized.random_sized sized.key_sized in
    let (written, read) =
      fits body 512 (client_hello_serialize params 512) (client_hello_parse (body ++ []))
        (ok params) short
        (client_hello_roundtrip params 512 [] sized.random_sized sized.key_sized) in
    bind-returns _
      (open_plaintext-hello_datagram hs_client_hello 0 body (omega arith) (omega arith))
      (bind-returns _ (expect-received_of hs_client_hello 0 body)
        (bind-returns _ (ap client_hello_parse (sym (append-nil body)) ∙ read) refl))

pub server_hello-honest :
    (crypto : Crypto) (private_key : Bytes) (params : Params) (t : Transcript)
    → Sized params
    → crypto.x25519_base private_key ≡ ok params.x25519_public_key
    → server_hello crypto private_key params.random t
      ≡ ok (record {
        datagram = hello_datagram (reply_message params);
        transcript = add t (reply_message params);
      })
unfolding server_hello
server_hello-honest crypto private_key params t sized based =
    let body = server_message params in
    let short = length-server_message params sized.random_sized sized.key_sized in
    let (written, read) =
      fits body 512 (server_hello_serialize params 512) (server_hello_parse (body ++ [])) _ short
        (server_hello_roundtrip params 512 [] sized.random_sized sized.key_sized) in
    bind-returns _ (ap or_bad_arg based) (
      bind-returns _ written (
        bind-returns _
          (wrap_and_add-message_of t hs_server_hello 0 body (512 + hdr_len) (omega arith)
            (omega arith))
          (bind-returns _
            (serialize-hello_datagram (reply_message params)
              (omega (arith, length-message_of hs_server_hello 0 body)))
            refl)))

-- What both ends hold behind the hellos.
abbrev pub transcript_of : Params → Params → Transcript
transcript_of client server = add (add empty (hello_message client)) (reply_message server)

abbrev pub keys_of : Bytes → Params → Params → HandshakeKeys
keys_of shared client server = schedule dtls13 shared (snapshot (transcript_of client server))

abbrev pub client_session : HandshakeKeys → Transcript → Session
client_session keys t = record {
  keys = keys;
  transcript = t;
  server_read = unprotection_init keys.server_write_key keys.server_write_iv 2;
  client_write = protection_init keys.client_write_key keys.client_write_iv 2;
}

pub on_server_hello-honest :
    (crypto : Crypto) (private_key shared : Bytes) (client server : Params)
    → Sized server
    → crypto.x25519_scalarmult private_key server.x25519_public_key ≡ ok shared
    → all_zero shared ≡ false
    → on_server_hello crypto
        (flight_of private_key client)
        (received_of hs_server_hello 0 (server_message server))
      ≡ ok (client_session (keys_of shared client server) (transcript_of client server))
unfolding on_server_hello
on_server_hello-honest crypto private_key shared client server sized exchanged nonzero =
    let body = server_message server in
    let short = length-server_message server sized.random_sized sized.key_sized in
    let (written, read) =
      fits body 512 (server_hello_serialize server 512) (server_hello_parse (body ++ [])) _ short
        (server_hello_roundtrip server 512 [] sized.random_sized sized.key_sized) in
    bind-returns _ (expect-received_of hs_server_hello 0 body) (
      bind-returns _ (ap server_hello_parse (sym (append-nil body)) ∙ read) (
        bind-returns _
          (agree-schedule crypto private_key server.x25519_public_key shared
            (transcript_of client server) exchanged nonzero)
          refl))

abbrev pub server_session_of : HandshakeKeys → Transcript → Server.Session
server_session_of keys t = record {
  keys = keys;
  transcript = t;
  server_write = protection_init keys.server_write_key keys.server_write_iv 2;
  client_read = unprotection_init keys.client_write_key keys.client_write_iv 2;
}

pub server_session-honest :
    (crypto : Crypto) (private_key peer_key shared : Bytes) (t : Transcript)
    → crypto.x25519_scalarmult private_key peer_key ≡ ok shared
    → all_zero shared ≡ false
    → server_session crypto private_key peer_key t
      ≡ ok (server_session_of (schedule dtls13 shared (snapshot t)) t)
unfolding server_session
server_session-honest crypto private_key peer_key shared t exchanged nonzero =
    bind-returns _ (agree-schedule crypto private_key peer_key shared t exchanged nonzero) refl
