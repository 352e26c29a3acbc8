-- ===== src/Hello/Format.antt =====
-- The wire format of the two messages, and that the serializers write it.
use nano_dtls.Base.{ℕ, ◌≡◌, List, [], ◌∷◌, ◌++◌, ltb, if◌then◌else◌}
use nano_dtls.Base.{Bytes, length, ok, err, bad_length}
use mathlib.Core.List.{append-nil}
use nano_dtls.Wire.{Writer, w_u16, sized_u16, ◌>>>=◌}
use nano_dtls.Wire.Reading.{vec8, vec16}
use nano_dtls.Wire.Writing.{
  Emits, w_bytes-Emits, nothing-Emits, then-Emits, sized_u8-Emits, sized_u16-Emits, finish-Emits,
}
use nano_dtls.Hello.{
  cipher_suite, group_x25519, dtls_1_3_version, legacy_version, Params, key_share_entry,
  server_version, server_key_share, write_server_hello, server_hello_serialize, client_versions,
  client_groups, client_key_share, client_algorithms, write_client_hello, client_hello_serialize,
}
use nano_dtls.Hello.Extensions.{u16_bytes, extension_list}

-- RFC 8446, 4.2.8: a group and its key.
abbrev pub share : Bytes → Bytes
share key = u16_bytes group_x25519 ++ vec16 key

-- The extensions of a ServerHello.
abbrev pub server_list : Bytes → List (ℕ × Bytes)
server_list key = (43, u16_bytes dtls_1_3_version) ∷ (51, share key) ∷ []

-- RFC 8446, 4.1.3: a ServerHello up to its extensions, before `rest`.
abbrev pub server_prefix : Bytes → Bytes → Bytes
server_prefix random rest =
    u16_bytes legacy_version ++ (random ++ (vec8 [] ++ (u16_bytes cipher_suite ++ (0 ∷ rest))))

abbrev pub server_message : Params → Bytes
server_message params =
    server_prefix params.random (vec16 (extension_list (server_list params.x25519_public_key)))

-- The extensions of a ClientHello.
abbrev pub client_list : Bytes → List (ℕ × Bytes)
client_list key =
    (43, vec8 (u16_bytes dtls_1_3_version))
    ∷ (10, vec16 (u16_bytes group_x25519))
    ∷ (51, vec16 (share key))
    ∷ (13, vec16 (u16_bytes 0x0403 ++ (u16_bytes 0x0804 ++ u16_bytes 0x0807)))
    ∷ []

-- RFC 9147, 5.3: a ClientHello up to its extensions, before `rest`.
abbrev pub client_prefix : Bytes → Bytes → Bytes
client_prefix random rest =
    u16_bytes legacy_version
    ++ (random
        ++ (vec8 [] ++ (vec8 [] ++ (vec16 (u16_bytes cipher_suite) ++ (vec8 (0 ∷ []) ++ rest)))))

abbrev pub client_message : Params → Bytes
client_message params =
    client_prefix params.random (vec16 (extension_list (client_list params.x25519_public_key)))

w_u16-Emits : (v : ℕ) → Emits (w_u16 v) (u16_bytes v)
w_u16-Emits v = w_bytes-Emits (u16_bytes v)

extension-Emits :
    {f : Writer → Writer} {content : Bytes} (type : ℕ)
    → Emits f content
    → Emits (w_u16 type >>>= sized_u16 f) (u16_bytes type ++ vec16 content)
extension-Emits type h = then-Emits (w_u16-Emits type) (sized_u16-Emits h)

share-Emits : (key : Bytes) → Emits (key_share_entry key) (share key)
share-Emits key = then-Emits (w_u16-Emits group_x25519) (sized_u16-Emits (w_bytes-Emits key))

server_list-Emits :
    (key : Bytes)
    → Emits (server_version >>>= server_key_share key) (extension_list (server_list key))
server_list-Emits key = rw (append-nil (share key)) (
    then-Emits (extension-Emits 43 (w_u16-Emits dtls_1_3_version))
      (extension-Emits 51 (share-Emits key)))

write_server_hello-Emits :
    (params : Params) → Emits (write_server_hello params) (server_message params)
write_server_hello-Emits params = then-Emits (w_u16-Emits legacy_version) (
    then-Emits (w_bytes-Emits params.random) (
      then-Emits (sized_u8-Emits nothing-Emits) (
        then-Emits (w_u16-Emits cipher_suite) (
          then-Emits (w_bytes-Emits (0 ∷ []))
            (sized_u16-Emits (server_list-Emits params.x25519_public_key))))))

client_list-Emits :
    (key : Bytes)
    → Emits
        (client_versions >>>= client_groups >>>= client_key_share key >>>= client_algorithms)
        (extension_list (client_list key))
client_list-Emits key =
    then-Emits (extension-Emits 43 (sized_u8-Emits (w_u16-Emits dtls_1_3_version))) (
      then-Emits (extension-Emits 10 (sized_u16-Emits (w_u16-Emits group_x25519))) (
        then-Emits (extension-Emits 51 (sized_u16-Emits (share-Emits key))) (
          extension-Emits 13 (
            sized_u16-Emits (
              then-Emits (w_u16-Emits 0x0403)
                (then-Emits (w_u16-Emits 0x0804) (w_u16-Emits 0x0807)))))))

write_client_hello-Emits :
    (params : Params) → Emits (write_client_hello params) (client_message params)
write_client_hello-Emits params = then-Emits (w_u16-Emits legacy_version) (
    then-Emits (w_bytes-Emits params.random) (
      then-Emits (sized_u8-Emits nothing-Emits) (
        then-Emits (sized_u8-Emits nothing-Emits) (
          then-Emits (sized_u16-Emits (w_u16-Emits cipher_suite)) (
            then-Emits (sized_u8-Emits (w_bytes-Emits (0 ∷ [])))
              (sized_u16-Emits (client_list-Emits params.x25519_public_key)))))))

-- On every branch: the message, or too little room.
pub server_hello_serialize_branches :
    (params : Params) (out_cap : ℕ)
    → server_hello_serialize params out_cap ≡ (
        if ltb out_cap (length (server_message params))
        then err bad_length
        else ok (server_message params))
unfolding server_hello_serialize
server_hello_serialize_branches params out_cap =
    finish-Emits out_cap bad_length (write_server_hello-Emits params)

pub client_hello_serialize_branches :
    (params : Params) (out_cap : ℕ)
    → client_hello_serialize params out_cap ≡ (
        if ltb out_cap (length (client_message params))
        then err bad_length
        else ok (client_message params))
unfolding client_hello_serialize
client_hello_serialize_branches params out_cap =
    finish-Emits out_cap bad_length (write_client_hello-Emits params)
