-- ===== src/Hello/ClientRoundTrip.antt =====
-- That `nd_client_hello_parse` reads the message of the serializer back.
use nano_dtls.Base.{
  ℕ, ◌≤◌, ◌<◌, ◌≡◌, refl, sym, ap, ◌∙◌, arith, [], ◌∷◌, ◌++◌, true, suc, false, Option, some, none,
  if◌then◌else◌, ◌==◌,
}
use nano_dtls.Base.{Bytes, length, length-append, be16, drop, ok, unsupported, truncated}
use nano_dtls.Base.{err, bad_length, ◌⊎◌}
use nano_dtls.Hello.{client_hello_serialize}
use nano_dtls.Hello.Format.{client_hello_serialize_branches}
use mathlib.Core.List.{append_assoc, append-nil}
use nano_dtls.Wire.{Reader, value, run, r_u16, r_bytes}
use nano_dtls.Wire.Writing.{room_cases}
use nano_dtls.Wire.Reading.{
  at, step, vec8, vec16, value-ok, lift-ok, r_u16-at, r_bytes-exactly, skip_vec8, read_vec16, spent,
  more,
}
use nano_dtls.Hello.{
  random_len, x25519_len, cipher_suite, group_x25519, dtls_1_3_version, legacy_version, Params,
}
use nano_dtls.Hello.Parse.{
  suites, shares, check_versions, client_shares, client_head, client_extensions, client_hello_parse,
}
use nano_dtls.Hello.Extensions.{u16_bytes, extension_list, Encodable}
use nano_dtls.Hello.ServerRoundTrip.{extension-at}
use nano_dtls.Hello.Format.{share, client_list, client_prefix, client_message}

suites-at : run (u16_bytes cipher_suite) (suites 3 false) ≡ ok true
unfolding r_u16 r_bytes be16
suites-at = refl

versions-at : check_versions (vec8 (u16_bytes dtls_1_3_version)) ≡ ok tt
unfolding check_versions be16
versions-at = refl

shares-end :
    (fuel : ℕ) (found : Option Bytes) (pre : Bytes)
    → value (shares (suc fuel) found (at pre [])) ≡ ok found
shares-end fuel found pre = rw (spent pre) refl

shares-at :
    (key : Bytes)
    → length key ≡ x25519_len
    → value (shares (suc (length (share key))) none (at [] (share key ++ []))) ≡ ok (some key)
shares-at key h = rw (more [] 0 (drop 1 (share key ++ []))) (
    ap value (
      step _
        (r_u16-at unsupported [] (u16_bytes (length key) ++ (key ++ [])) group_x25519 (omega arith))
        (step _
          (r_u16-at unsupported (u16_bytes group_x25519) (key ++ []) (length key) (omega arith))
          (step _
            (r_bytes-exactly unsupported (u16_bytes group_x25519 ++ u16_bytes (length key)) key []
              (length key) refl)
            refl)))
    ∙ shares-end (suc (suc (suc (length key))))
        (if length key == x25519_len then some key else none) (share key)
    ∙ rw h refl)

client_list-Encodable : (key : Bytes) → length key ≡ x25519_len → Encodable (client_list key)
client_list-Encodable key h = (
  omega arith,
  omega arith,
  (omega arith, omega arith, (omega arith, omega arith, (omega arith, omega arith, tt))),
)

client_shares-at :
    (key : Bytes) → length key ≡ x25519_len → run (vec16 (share key)) client_shares ≡ ok key
client_shares-at key h =
    (λ i. run (u16_bytes (length (share key)) ++ sym (append-nil (share key)) i) client_shares)
    ∙ value-ok (
        read_vec16 _ _ [] (share key) [] _ (omega arith) (
          step _
            (lift-ok _ (
              (λ i. run (sym (append-nil (share key)) i) (shares (suc (length (share key))) none))
              ∙ shares-at key h))
            refl))

client_head-at :
    (random rest : Bytes)
    → length random ≡ random_len
    → client_head (at [] (client_prefix random rest))
      ≡ ok (
        random,
        at
            (u16_bytes legacy_version
              ++ random
              ++ vec8 []
              ++ vec8 []
              ++ vec16 (u16_bytes cipher_suite)
              ++ vec8 (0 ∷ []))
            rest,
      )
client_head-at random rest h =
    let before = u16_bytes legacy_version in
    let last = vec8 (0 ∷ []) ++ rest in
    let suite = u16_bytes cipher_suite in
    step _
      (r_u16-at truncated [] (random ++ (vec8 [] ++ (vec8 [] ++ (vec16 suite ++ last))))
        legacy_version (omega arith))
      (step _
        (r_bytes-exactly truncated before random (vec8 [] ++ (vec8 [] ++ (vec16 suite ++ last)))
          random_len h)
        (skip_vec8 _ _ (before ++ random) [] (vec8 [] ++ (vec16 suite ++ last)) _ (omega arith) (
          skip_vec8 _ _ (before ++ random ++ vec8 []) [] (vec16 suite ++ last) _ (omega arith) (
            read_vec16 _ _ (before ++ random ++ vec8 [] ++ vec8 []) suite last _ (omega arith) (
              step _ (lift-ok _ suites-at) (
                skip_vec8 _ _ (before ++ random ++ vec8 [] ++ vec8 [] ++ vec16 suite) (0 ∷ []) rest
                  _ (omega arith) refl))))))

client_extensions-at :
    (key : Bytes) (r : Reader)
    → length key ≡ x25519_len
    → client_extensions (extension_list (client_list key)) r ≡ ok (key, r)
client_extensions-at key r h =
    let good = client_list-Encodable key h in
    step _ (extension-at (client_list key) 43 (vec8 (u16_bytes dtls_1_3_version)) r good refl) (
      step _ (lift-ok r versions-at) (
        step _ (extension-at (client_list key) 51 (vec16 (share key)) r good refl)
          (lift-ok r (client_shares-at key h))))

client_hello_parse-message :
    (params : Params) (trailing : Bytes)
    → length params.random ≡ random_len
    → length params.x25519_public_key ≡ x25519_len
    → client_hello_parse (client_message params ++ trailing) ≡ ok params
unfolding client_hello_parse
client_hello_parse-message params trailing h g =
    let random = params.random in
    let key = params.x25519_public_key in
    let exts = extension_list (client_list key) in
    let algorithms = vec16 (u16_bytes 0x0403 ++ (u16_bytes 0x0804 ++ u16_bytes 0x0807)) in
    let before =
      u16_bytes legacy_version
      ++ random
      ++ vec8 []
      ++ vec8 []
      ++ vec16 (u16_bytes cipher_suite)
      ++ vec8 (0 ∷ []) in
    rw
      (append_assoc random
        (vec8 [] ++ (vec8 [] ++ (vec16 (u16_bytes cipher_suite) ++ (vec8 (0 ∷ []) ++ vec16 exts))))
        trailing)
      (value-ok {s = at (before ++ vec16 exts) trailing} (
        step _ (client_head-at random (vec16 exts ++ trailing) h) (
          read_vec16 _ _ before exts trailing _
            (omega (arith, length-append key (extension_list ((13, algorithms) ∷ []))))
            (step _ (client_extensions-at key (at (before ++ vec16 exts) trailing) g) refl))))

-- For a random and a key of 32 bytes, in a buffer of `out_cap` bytes: where the message does not
-- fit, the serializer answers `bad_length`; where it fits, it writes the message of RFC 9147, and the
-- parser, given that message with any bytes behind it, returns the random and the key.
pub client_hello_roundtrip :
    (params : Params) (out_cap : ℕ) (trailing : Bytes)
    → length params.random ≡ random_len
    → length params.x25519_public_key ≡ x25519_len
    → ((out_cap < length (client_message params))
        × (client_hello_serialize params out_cap ≡ err bad_length))
      ⊎ ((length (client_message params) ≤ out_cap)
          × (client_hello_serialize params out_cap ≡ ok (client_message params))
          × (client_hello_parse (client_message params ++ trailing) ≡ ok params))
client_hello_roundtrip params out_cap trailing h g =
    room_cases out_cap bad_length (client_message params) (client_hello_serialize params out_cap) _
      (client_hello_serialize_branches params out_cap)
      (client_hello_parse-message params trailing h g)
