-- ===== src/Client/Safety.antt =====
-- What the client has checked when each of its steps returns.
use nano_dtls.Base.{◌≡◌, sym, ap, ◌∙◌, arith, ◌!=◌, [], ◌∷◌, Bytes, ok, bind-ok, ok-injective}
use nano_dtls.Transcript.{add, empty}
use nano_dtls.Transcript.Snapshot.{add_all}
use nano_dtls.KeySchedule.{HandshakeKeys}
use nano_dtls.Hello.{cipher_suite}
use nano_dtls.Hello.Parse.{ServerHello, server_hello_parse}
use nano_dtls.Messages.{}
use nano_dtls.Driver.{Crypto, Received, expect, read_handshake, agree, hs_server_hello}
use nano_dtls.Driver.Accepted.{Message, whole, guard-passed, call-passed, Agreed, agree-Agreed}
use nano_dtls.Protect.{unprotection_init}
use nano_dtls.Client.{Flight, Session, on_server_hello}

-- The ServerHello names the one cipher suite and a key share that the keys come from.
pub record HelloAccepted (crypto : Crypto) (private_key hello message : Bytes)
    (keys : HandshakeKeys) : Type 0 where
  pub body : Bytes
  pub share : ServerHello
  pub is_hello : Message hs_server_hello message body
  pub read : server_hello_parse body ≡ ok share
  pub suite : share.cipher_suite ≡ cipher_suite
  pub agreed : Agreed crypto private_key share.key_share (hello ∷ message ∷ []) keys

pub on_server_hello-HelloAccepted :
    (crypto : Crypto) (flight : Flight) (received : Received) (session : Session) (hello : Bytes)
    → flight.transcript ≡ add empty hello
    → read_handshake received.message ≡ ok received
    → on_server_hello crypto flight received ≡ ok session
    → HelloAccepted crypto flight.private_key hello received.message session.keys
      × (session.transcript ≡ add_all (hello ∷ received.message ∷ []) empty)
unfolding on_server_hello
on_server_hello-HelloAccepted crypto flight received session hello begun parsed h =
    let (expected, h1) = call-passed (expect hs_server_hello received) _ session h in
    let (share, read, h2) = bind-ok (server_hello_parse received.fragment) _ session h1 in
    let (suite, h3) = guard-passed (share.cipher_suite != cipher_suite) _ _ session h2 in
    let (keys, agreed, h4) =
      bind-ok
        (agree crypto flight.private_key share.key_share (add flight.transcript received.message)) _
        session h3 in
    let same : add flight.transcript received.message
        ≡ add_all (hello ∷ received.message ∷ []) empty =
      ap (λ t. add t received.message) begun in
    let keys_same : keys ≡ session.keys = ap Session.keys (ok-injective _ session h4) in
    (
      record {
        body = received.fragment;
        share = share;
        is_hello = whole hs_server_hello received parsed expected;
        read = read;
        suite = ground (arith, suite);
        agreed =
            agree-Agreed crypto flight.private_key share.key_share (hello ∷ received.message ∷ [])
              session.keys
              (ap (agree crypto flight.private_key share.key_share) (sym same)
                ∙ agreed
                ∙ ap ok keys_same);
      },
      sym (ap Session.transcript (ok-injective _ session h4)) ∙ same,
    )

-- The reader has the server's key.
pub on_server_hello-reader :
    (crypto : Crypto) (flight : Flight) (received : Received) (session : Session)
    → on_server_hello crypto flight received ≡ ok session
    → session.server_read
      ≡ unprotection_init session.keys.server_write_key session.keys.server_write_iv 2
unfolding on_server_hello
on_server_hello-reader crypto flight received session h =
    let (expected, h1) = call-passed (expect hs_server_hello received) _ session h in
    let (share, read, h2) = bind-ok (server_hello_parse received.fragment) _ session h1 in
    let (suite, h3) = guard-passed (share.cipher_suite != cipher_suite) _ _ session h2 in
    let (keys, agreed, h4) =
      bind-ok
        (agree crypto flight.private_key share.key_share (add flight.transcript received.message)) _
        session h3 in
    let same = ok-injective _ session h4 in
    sym (ap Session.server_read same)
    ∙ ap (λ (s : Session). unprotection_init s.keys.server_write_key s.keys.server_write_iv 2) same
