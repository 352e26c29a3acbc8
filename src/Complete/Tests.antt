-- ===== src/Complete/Tests.antt =====
-- A handshake with the certificates of tests/x509_test_certs.h and ChaCha20-Poly1305, and operations
-- of the right shape in place of X25519 and P-256.
use nano_dtls.Base.{
  ◌≡◌, refl, arith, true, [], ◌∷◌, replicate, ok, err, truncated, ◌++◌, bind-returns,
}
use nano_dtls.Protect.{
  Protection, Unprotection, protection_init, unprotection_init, unprotect, protect, build_nonce,
  write_fixed_shape_header,
}
use nano_dtls.Record.Unified
use nano_dtls.Protect.Opening.{seen}
use nano_dtls.Protect.RoundTrip.{header_of, unprotect-protect}
use nano_dtls.Hello.{Params}
use nano_dtls.X509.TestCerts.{leaf_der-IsBytes, leaf_der, leaf, root, leaf_parses}
use nano_dtls.X509.Chain.{verify_chain, verify_signature}
use nano_dtls.Aead.Toy.{toy, toy-Laws}
use nano_dtls.Chacha20Poly1305.{chacha20_poly1305}
use nano_dtls.Chacha20Poly1305.Seal.{chacha20_poly1305-Laws, encrypt-returns}
use nano_dtls.Net.{done}
use nano_dtls.Net.Delivered.{network}
use nano_dtls.Driver.{Crypto, max_msg}
use nano_dtls.Driver.Delivery.{Seals, message_of, received_of}
use nano_dtls.Driver.Hellos.{hello_datagram, open_plaintext-hello_datagram}
use nano_dtls.Client.Run.{hello_attempts}
use nano_dtls.Client.Retry.{socket, hello_attempts-answered}
use nano_dtls.Server.Run.{finished_attempts}
use nano_dtls.Server.Retry.{finished_attempts-skip}
use nano_dtls.Client
use nano_dtls.Client.Secure.{Authenticated, client_handshake-Authenticated}
use nano_dtls.Server
use nano_dtls.Server.Secure.{Confirmed, server_handshake-Confirmed}
use nano_dtls.Complete.Phases.{Trustworthy, Signs}
use nano_dtls.Complete.Handshake.{Ends, Completed, handshake-Completed}

abbrev crypto : Crypto
crypto = record {
  aead = chacha20_poly1305;
  x25519_base = λ k. ok (replicate 32 9);
  x25519_scalarmult = λ k p. ok (replicate 32 5);
  point_is_valid = λ qx qy. true;
  ecdsa_verify = λ qx qy hash r s. ok tt;
}

abbrev client : Client.Config
client = record { trust_anchor = root; at_time = 20270101000000 }

abbrev server : Server.Config
server = record { certs = leaf_der ∷ []; sign_fn = λ hash. ok (replicate 32 1, replicate 32 2) }

abbrev params : Params
params = record { random = replicate 32 3; x25519_public_key = replicate 32 9 }

cipher-Seals : Seals chacha20_poly1305
cipher-Seals = record { laws = chacha20_poly1305-Laws; total = encrypt-returns }

root_trusts : Trustworthy crypto client server leaf
unfolding verify_chain verify_signature
root_trusts = record {
  rest = [];
  some = omega arith;
  few = omega arith;
  short = omega arith;
  bytes = (leaf_der-IsBytes, tt);
  parsed = bind-returns _ leaf_parses refl;
  trusted = refl;
}

server-Signs : Signs crypto server leaf
server-Signs = record {
  r = λ hash. replicate 32 1;
  s = λ hash. replicate 32 2;
  r_sized = λ hash. refl;
  s_sized = λ hash. refl;
  r_bytes = λ hash. ground arith;
  s_bytes = λ hash. ground arith;
  signs = λ hash. refl;
  verifies = λ hash. refl;
}

abbrev ends : Ends crypto
ends = record {
  client_key = replicate 32 7;
  server_key = replicate 32 8;
  client_hello = params;
  server_hello = params;
  shared = replicate 32 5;
  client_sized = record { random_sized = refl; key_sized = refl };
  server_sized = record { random_sized = refl; key_sized = refl };
  client_based = refl;
  server_based = refl;
  client_secret = refl;
  server_secret = refl;
  contributory = refl;
}

handshake-Completed_example : Completed crypto client server leaf ends
handshake-Completed_example =
    handshake-Completed crypto client server leaf ends cipher-Seals root_trusts server-Signs

-- The same run, for the two theorems on one end.
run : Completed crypto client server leaf ends
run = handshake-Completed crypto client server leaf ends cipher-Seals root_trusts server-Signs

client_handshake-Authenticated_example :
    Authenticated crypto client
      (network run.to_client (replicate 32 3 ∷ replicate 32 7 ∷ []) [])
      (network [] [] run.to_server)
      (record { keys = run.keys; server_leaf = leaf })
client_handshake-Authenticated_example =
    client_handshake-Authenticated crypto client
      (network run.to_client (replicate 32 3 ∷ replicate 32 7 ∷ []) [])
      (network [] [] run.to_server) (record { keys = run.keys; server_leaf = leaf })
      run.client_returns

server_handshake-Confirmed_example :
    Confirmed crypto
      (network run.to_server (replicate 32 8 ∷ replicate 32 3 ∷ []) [])
      (network [] [] run.to_client)
      run.keys
server_handshake-Confirmed_example =
    server_handshake-Confirmed crypto server
      (network run.to_server (replicate 32 8 ∷ replicate 32 3 ∷ []) [])
      (network [] [] run.to_client) run.keys run.server_returns

-- Two lost answers, then the reply.
hello_attempts-answered_example :
    hello_attempts 5 truncated (1 ∷ []) (
      socket
        (err truncated ∷ err truncated ∷ ok (hello_datagram (message_of 2 0 (5 ∷ []))) ∷ [])
        []
        [])
    ≡ done (received_of 2 0 (5 ∷ [])) (socket [] [] ((1 ∷ []) ∷ (1 ∷ []) ∷ (1 ∷ []) ∷ []))
hello_attempts-answered_example =
    hello_attempts-answered (1 ∷ []) (hello_datagram (message_of 2 0 (5 ∷ [])))
      (err truncated ∷ err truncated ∷ []) [] [] [] (received_of 2 0 (5 ∷ [])) (tt, (tt, tt))
      (omega arith) (open_plaintext-hello_datagram 2 0 (5 ∷ []) (omega arith) (omega arith))

abbrev reader : Unprotection
reader = unprotection_init (replicate 32 7) (replicate 12 1) 2

-- A datagram without bytes does not decrypt.
empty_stale : unprotect toy reader [] max_msg ≡ err truncated
unfolding unprotect Unified.parse
empty_stale = refl

abbrev sender : Protection
sender = protection_init (replicate 32 7) (replicate 12 1) 2

protects :
    protect toy sender 22 (4 ∷ []) 100
    ≡ ok (record {
      out = header_of sender 1 ++ 4 ∷ 22 ∷ replicate 16 5;
      state = record sender { next_send_sequence = 1 };
    })
unfolding protect write_fixed_shape_header build_nonce
protects = refl

sealed_opens :
    unprotect toy reader (header_of sender 1 ++ 4 ∷ 22 ∷ replicate 16 5) max_msg
    ≡ ok (record { plaintext = 4 ∷ []; content_type = 22; state = seen reader 0 })
unfolding write_fixed_shape_header
sealed_opens =
    unprotect-protect toy toy-Laws sender reader 22 (4 ∷ []) [] 100 max_msg
      (record {
        out = header_of sender 1 ++ 4 ∷ 22 ∷ replicate 16 5;
        state = record sender { next_send_sequence = 1 };
      })
      (refl, refl, refl, omega arith) (omega arith, omega arith, omega arith, omega arith)
      (omega arith) (omega arith) (omega arith, tt) (omega arith) protects

finished_attempts-skip_example :
    finished_attempts
      (record crypto { aead = toy })
      8
      truncated
      reader
      (network ([] ∷ [] ∷ (header_of sender 1 ++ 4 ∷ 22 ∷ replicate 16 5) ∷ []) [] [])
    ≡ done
        (record { plaintext = 4 ∷ []; content_type = 22; state = seen reader 0 })
        (network [] [] [])
finished_attempts-skip_example =
    finished_attempts-skip (record crypto { aead = toy }) reader ([] ∷ [] ∷ [])
      (header_of sender 1 ++ 4 ∷ 22 ∷ replicate 16 5) [] [] []
      (record { plaintext = 4 ∷ []; content_type = 22; state = seen reader 0 })
      ((truncated, empty_stale), ((truncated, empty_stale), tt)) (omega arith) sealed_opens
