-- ===== src/Hello/Tests.antt =====
-- The messages for a random and a key of 32 bytes.
use nano_dtls.Base.{◌≤◌, ◌<◌, ◌≡◌, ◌≢◌, ◌⊎◌, refl, arith, [], ◌∷◌, ◌++◌, some}
use nano_dtls.Base.{length, replicate, ok, err, fault, bad_length}
use nano_dtls.Hello.{
  Params, cipher_suite, dtls_1_3_version, client_hello_serialize, server_hello_serialize,
  find_extension,
}
use nano_dtls.Hello.Parse.{client_hello_parse, server_hello_parse}
use nano_dtls.Hello.Extensions.{extension_list, find_extension-lookup}
use nano_dtls.Hello.Format.{client_message, server_message}
use nano_dtls.Hello.ServerRoundTrip.{server_hello_roundtrip}
use nano_dtls.Hello.ClientRoundTrip.{client_hello_roundtrip}
use nano_dtls.Hello.Returns.{hello_parse-returns}

abbrev params : Params
params = record { random = replicate 32 7; x25519_public_key = replicate 32 9 }

server_hello_roundtrip_example :
    ((100 < length (server_message params)) × (server_hello_serialize params 100 ≡ err bad_length))
    ⊎ ((length (server_message params) ≤ 100)
        × (server_hello_serialize params 100 ≡ ok (server_message params))
        × (server_hello_parse (server_message params ++ 1 ∷ [])
            ≡ ok (record {
              random = replicate 32 7;
              cipher_suite = cipher_suite;
              selected_version = dtls_1_3_version;
              key_share = replicate 32 9;
            })))
server_hello_roundtrip_example = server_hello_roundtrip params 100 (1 ∷ []) refl refl

client_hello_roundtrip_example :
    ((200 < length (client_message params)) × (client_hello_serialize params 200 ≡ err bad_length))
    ⊎ ((length (client_message params) ≤ 200)
        × (client_hello_serialize params 200 ≡ ok (client_message params))
        × (client_hello_parse (client_message params ++ []) ≡ ok params))
client_hello_roundtrip_example = client_hello_roundtrip params 200 [] refl refl

-- The second of three extensions.
find_extension-lookup_example :
    find_extension (extension_list ((10, 1 ∷ []) ∷ (51, 2 ∷ 3 ∷ []) ∷ (51, []) ∷ [])) 51
    ≡ ok (some (2 ∷ 3 ∷ []))
find_extension-lookup_example =
    find_extension-lookup ((10, 1 ∷ []) ∷ (51, 2 ∷ 3 ∷ []) ∷ (51, []) ∷ []) 51
      (omega arith, omega arith, (omega arith, omega arith, (omega arith, omega arith, tt)))

hello_parse-returns_example :
    (client_hello_parse (1 ∷ 2 ∷ []) ≢ fault) × (server_hello_parse (1 ∷ 2 ∷ []) ≢ fault)
hello_parse-returns_example = hello_parse-returns (1 ∷ 2 ∷ [])
