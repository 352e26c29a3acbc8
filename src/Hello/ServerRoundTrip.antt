-- ===== src/Hello/ServerRoundTrip.antt =====
-- That `nd_server_hello_parse` reads the message of the serializer back.
use nano_dtls.Base.{ℕ, ◌≤◌, ◌<◌, ◌≡◌, refl, sym, ap, ◌∙◌, arith, List, [], ◌∷◌, ◌++◌, some, ◌!=◌}
use nano_dtls.Base.{Bytes, length, length-append, be16, ok, unsupported, truncated}
use nano_dtls.Base.{err, bad_length, ◌⊎◌}
use nano_dtls.Hello.{server_hello_serialize}
use nano_dtls.Hello.Format.{server_hello_serialize_branches}
use mathlib.Core.List.{append_assoc, append-nil}
use nano_dtls.Wire.{Reader, run}
use nano_dtls.Wire.Writing.{room_cases}
use nano_dtls.Wire.Reading.{
  at, step, vec8, vec16, value-ok, lift-ok, refuse-ok, r_u8-at, r_u16-at, r_bytes-exactly,
  skip_vec8, read_vec16,
}
use nano_dtls.Hello.{
  random_len, x25519_len, cipher_suite, group_x25519, dtls_1_3_version, legacy_version, Params,
}
use nano_dtls.Hello.Parse.{
  extension, server_share, server_head, server_extensions, server_hello_parse,
}
use nano_dtls.Hello.Extensions.{u16_bytes, extension_list, lookup, Encodable, find_extension-lookup}
use nano_dtls.Hello.Format.{share, server_list, server_prefix, server_message}

-- An extension that is there is read.
pub extension-at :
    (exts : List (ℕ × Bytes)) (want : ℕ) (content : Bytes) (r : Reader)
    → Encodable exts
    → lookup want exts ≡ some content
    → extension (extension_list exts) want r ≡ ok (content, r)
extension-at exts want content r good h =
    step _ (lift-ok r (find_extension-lookup exts want good ∙ ap ok h)) refl

server_head-at :
    (random rest : Bytes)
    → length random ≡ random_len
    → server_head (at [] (server_prefix random rest))
      ≡ ok (
        (random, cipher_suite),
        at (u16_bytes legacy_version ++ random ++ vec8 [] ++ u16_bytes cipher_suite ++ 0 ∷ []) rest,
      )
server_head-at random rest h =
    let before = u16_bytes legacy_version in
    step _
      (r_u16-at truncated [] (random ++ (vec8 [] ++ (u16_bytes cipher_suite ++ (0 ∷ rest))))
        legacy_version (omega arith))
      (step _
        (r_bytes-exactly truncated before random (vec8 [] ++ (u16_bytes cipher_suite ++ (0 ∷ rest)))
          random_len h)
        (skip_vec8 _ _ (before ++ random) [] (u16_bytes cipher_suite ++ (0 ∷ rest)) _ (omega arith)
          (step _
            (r_u16-at truncated (before ++ random ++ vec8 []) (0 ∷ rest) cipher_suite (omega arith))
            (step _
              (r_u8-at truncated (before ++ random ++ vec8 [] ++ u16_bytes cipher_suite) rest 0)
              refl))))

server_share-at : (key : Bytes) → length key ≡ x25519_len → run (share key) server_share ≡ ok key
server_share-at key h =
    (λ i.
      run (u16_bytes group_x25519 ++ (u16_bytes (length key) ++ sym (append-nil key) i))
        server_share)
    ∙ value-ok (
        step _
          (r_u16-at unsupported [] (u16_bytes (length key) ++ (key ++ [])) group_x25519
            (omega arith))
          (step _
            (r_u16-at unsupported (u16_bytes group_x25519) (key ++ []) (length key) (omega arith))
            (step _
              (r_bytes-exactly unsupported (u16_bytes group_x25519 ++ u16_bytes (length key)) key []
                (length key) refl)
              (step _ (refuse-ok (length key != x25519_len) unsupported _ (ground (arith, h)))
                refl))))

server_list-Encodable : (key : Bytes) → length key ≡ x25519_len → Encodable (server_list key)
server_list-Encodable key h = (omega arith, omega arith, (omega arith, omega arith, tt))

server_extensions-at :
    (key : Bytes) (r : Reader)
    → length key ≡ x25519_len
    → server_extensions (extension_list (server_list key)) r ≡ ok ((dtls_1_3_version, key), r)
unfolding be16
server_extensions-at key r h =
    let good = server_list-Encodable key h in
    step _ (extension-at (server_list key) 43 (u16_bytes dtls_1_3_version) r good refl) (
      step _ (extension-at (server_list key) 51 (share key) r good refl)
        (step _ (lift-ok r (server_share-at key h)) refl))

server_hello_parse-message :
    (params : Params) (trailing : Bytes)
    → length params.random ≡ random_len
    → length params.x25519_public_key ≡ x25519_len
    → server_hello_parse (server_message params ++ trailing)
      ≡ ok (record {
        random = params.random;
        cipher_suite = cipher_suite;
        selected_version = dtls_1_3_version;
        key_share = params.x25519_public_key;
      })
unfolding server_hello_parse
server_hello_parse-message params trailing h g =
    let random = params.random in
    let key = params.x25519_public_key in
    let block = extension_list (server_list key) in
    let before =
      u16_bytes legacy_version ++ random ++ vec8 [] ++ u16_bytes cipher_suite ++ 0 ∷ [] in
    rw (append_assoc random (vec8 [] ++ (u16_bytes cipher_suite ++ (0 ∷ vec16 block))) trailing) (
      value-ok {s = at (before ++ vec16 block) trailing} (
        step _ (server_head-at random (vec16 block ++ trailing) h) (
          read_vec16 _ _ before block trailing _ (omega (arith, length-append key []))
            (step _ (server_extensions-at key (at (before ++ vec16 block) trailing) g) refl))))

-- For a random and a key of 32 bytes, in a buffer of `out_cap` bytes: where the message does not
-- fit, the serializer answers `bad_length`; where it fits, it writes the message of RFC 8446, and the
-- parser, given that message with any bytes behind it, returns the random, the suite, the version
-- and the key share that it was made of.
pub server_hello_roundtrip :
    (params : Params) (out_cap : ℕ) (trailing : Bytes)
    → length params.random ≡ random_len
    → length params.x25519_public_key ≡ x25519_len
    → ((out_cap < length (server_message params))
        × (server_hello_serialize params out_cap ≡ err bad_length))
      ⊎ ((length (server_message params) ≤ out_cap)
          × (server_hello_serialize params out_cap ≡ ok (server_message params))
          × (server_hello_parse (server_message params ++ trailing)
              ≡ ok (record {
                random = params.random;
                cipher_suite = cipher_suite;
                selected_version = dtls_1_3_version;
                key_share = params.x25519_public_key;
              })))
server_hello_roundtrip params out_cap trailing h g =
    room_cases out_cap bad_length (server_message params) (server_hello_serialize params out_cap) _
      (server_hello_serialize_branches params out_cap)
      (server_hello_parse-message params trailing h g)
