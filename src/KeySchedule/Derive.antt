-- ===== src/KeySchedule/Derive.antt =====
-- The keys that `nd_derive_handshake_keys` returns.
use nano_dtls.Base.{ℕ, ◌≤◌, ◌≡◌, refl, arith, [], Bytes, length, replicate, ok, bind-returns}
use nano_dtls.Aead.{key_len, nonce_len}
use nano_dtls.Sha256.{sha256, init, update}
use nano_dtls.Hmac.Nested.{length-final}
use nano_dtls.Hmac.{hmac_sha256}
use nano_dtls.Hkdf.{hash_len, hkdf_label, extract, expand_label, derive_secret}
use nano_dtls.Hkdf.Stream.{output, length-output}
use nano_dtls.Hkdf.Label.{expand_label-ok}
use nano_dtls.KeySchedule.{
  HandshakeKeys, derive_handshake_keys, derived, client_traffic, server_traffic, key_label,
  iv_label,
}

-- `Derive-Secret` and `HKDF-Expand-Label` of RFC 8446, section 7.1.
abbrev pub secret_of : Bytes → Bytes → Bytes → Bytes → ℕ → Bytes
secret_of secret prefix label context n = output secret (hkdf_label prefix label context n) n

abbrev pub schedule : Bytes → Bytes → Bytes → HandshakeKeys
schedule prefix shared hash =
    let zero32 = replicate hash_len 0 in
    let early = hmac_sha256 zero32 zero32 in
    let salt = secret_of early prefix derived (sha256 []) hash_len in
    let handshake = hmac_sha256 salt shared in
    let client = secret_of handshake prefix client_traffic hash hash_len in
    let server = secret_of handshake prefix server_traffic hash hash_len in
    record {
      handshake_secret = handshake;
      client_handshake_traffic_secret = client;
      server_handshake_traffic_secret = server;
      client_write_key = secret_of client prefix key_label [] key_len;
      client_write_iv = secret_of client prefix iv_label [] nonce_len;
      server_write_key = secret_of server prefix key_label [] key_len;
      server_write_iv = secret_of server prefix iv_label [] nonce_len;
    }

length-sha256 : (m : Bytes) → length (sha256 m) ≡ hash_len
unfolding sha256
length-sha256 m = length-final (update init m)

extract-salt :
    (salt ikm : Bytes) → length salt ≡ hash_len → extract salt ikm ≡ ok (hmac_sha256 salt ikm)
unfolding extract
extract-salt salt ikm sized = ground (arith, sized)

secret_ok :
    (secret prefix label hash : Bytes)
    → length prefix ≤ 52
    → length label ≤ 12
    → length hash ≡ hash_len
    → derive_secret secret prefix label hash ≡ ok (secret_of secret prefix label hash hash_len)
unfolding derive_secret
secret_ok secret prefix label hash short name sized =
    expand_label-ok secret prefix label hash hash_len (omega arith, omega arith, omega arith)

key_ok :
    (secret prefix label : Bytes) (n : ℕ)
    → length prefix ≤ 52
    → length label ≤ 12
    → n ≤ 64
    → expand_label secret prefix label [] n ≡ ok (secret_of secret prefix label [] n)
key_ok secret prefix label n short name few =
    expand_label-ok secret prefix label [] n (omega arith, omega arith, omega arith)

-- The keys are those of the schedule.
derive-schedule :
    (prefix shared hash : Bytes)
    → length prefix ≤ 52
    → length hash ≡ hash_len
    → derive_handshake_keys prefix shared hash ≡ ok (schedule prefix shared hash)
unfolding derive_handshake_keys
derive-schedule prefix shared hash short sized =
    let zero32 : Bytes = replicate hash_len 0 in
    let early : Bytes = hmac_sha256 zero32 zero32 in
    let salt : Bytes = secret_of early prefix derived (sha256 []) hash_len in
    let handshake : Bytes = hmac_sha256 salt shared in
    let client : Bytes = secret_of handshake prefix client_traffic hash hash_len in
    let server : Bytes = secret_of handshake prefix server_traffic hash hash_len in
    let salt_size : length salt ≡ hash_len =
      length-output early (hkdf_label prefix derived (sha256 []) hash_len) hash_len (omega arith) in
    bind-returns _ (extract-salt zero32 zero32 refl) (
      bind-returns _
        (secret_ok early prefix derived (sha256 []) short (omega arith) (length-sha256 []))
        (bind-returns _ (extract-salt salt shared salt_size) (
          bind-returns _ (secret_ok handshake prefix client_traffic hash short (omega arith) sized)
            (bind-returns _
              (secret_ok handshake prefix server_traffic hash short (omega arith) sized)
              (bind-returns _
                (key_ok client prefix key_label key_len short (omega arith) (omega arith))
                (bind-returns _
                  (key_ok client prefix iv_label nonce_len short (omega arith) (omega arith))
                  (bind-returns _
                    (key_ok server prefix key_label key_len short (omega arith) (omega arith))
                    (bind-returns _
                      (key_ok server prefix iv_label nonce_len short (omega arith) (omega arith))
                      refl))))))))

-- With a label prefix of at most 52 bytes the derivation succeeds, with the keys of the schedule of
-- RFC 8446, and these have the sizes that the record protection takes.
pub derive_handshake_keys_lem :
    (prefix shared hash : Bytes)
    → length prefix ≤ 52
    → length hash ≡ hash_len
    → let keys = schedule prefix shared hash in
      (derive_handshake_keys prefix shared hash ≡ ok keys)
      × (length keys.client_write_key ≡ key_len)
      × (length keys.client_write_iv ≡ nonce_len)
      × (length keys.server_write_key ≡ key_len)
      × (length keys.server_write_iv ≡ nonce_len)
derive_handshake_keys_lem prefix shared hash short sized =
    let keys : HandshakeKeys = schedule prefix shared hash in
    let client : Bytes = keys.client_handshake_traffic_secret in
    let server : Bytes = keys.server_handshake_traffic_secret in
    (
      derive-schedule prefix shared hash short sized,
      length-output client (hkdf_label prefix key_label [] key_len) key_len (omega arith),
      length-output client (hkdf_label prefix iv_label [] nonce_len) nonce_len (omega arith),
      length-output server (hkdf_label prefix key_label [] key_len) key_len (omega arith),
      length-output server (hkdf_label prefix iv_label [] nonce_len) nonce_len (omega arith),
    )
