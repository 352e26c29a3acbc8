-- ===== src/KeySchedule.antt =====
-- The key schedule of the handshake and the Finished messages, src/handshake/key_schedule.c.
pub mod Derive
pub mod Finished
mod Tests
use nano_dtls.Base.{ℕ, zero, ◌+◌, [], ◌∷◌, ◌!=◌, ◌==◌, if◌then◌else◌}
use nano_dtls.Base.{Bytes, replicate, diff_bytes, Result, ok, ◌>>=◌, ◌>>◌, fail_if, auth_failed}
use nano_dtls.Aead.{key_len, nonce_len}
use nano_dtls.Sha256.{sha256}
use nano_dtls.Hmac.{hmac_sha256}
use nano_dtls.Hkdf.{hash_len, extract, expand_label, derive_secret}

-- The labels, without the prefix.
abbrev pub derived : Bytes
derived = b'd' ∷ b'e' ∷ b'r' ∷ b'i' ∷ b'v' ∷ b'e' ∷ b'd' ∷ []

abbrev pub client_traffic : Bytes
client_traffic =
    b'c' ∷ b' ' ∷ b'h' ∷ b's' ∷ b' ' ∷ b't' ∷ b'r' ∷ b'a' ∷ b'f' ∷ b'f' ∷ b'i' ∷ b'c' ∷ []

abbrev pub server_traffic : Bytes
server_traffic =
    b's' ∷ b' ' ∷ b'h' ∷ b's' ∷ b' ' ∷ b't' ∷ b'r' ∷ b'a' ∷ b'f' ∷ b'f' ∷ b'i' ∷ b'c' ∷ []

abbrev pub key_label : Bytes
key_label = b'k' ∷ b'e' ∷ b'y' ∷ []

abbrev pub iv_label : Bytes
iv_label = b'i' ∷ b'v' ∷ []

abbrev pub finished_label : Bytes
finished_label = b'f' ∷ b'i' ∷ b'n' ∷ b'i' ∷ b's' ∷ b'h' ∷ b'e' ∷ b'd' ∷ []

-- `nd_handshake_keys`
pub record HandshakeKeys : Type 0 where
  pub handshake_secret : Bytes
  pub client_handshake_traffic_secret : Bytes
  pub server_handshake_traffic_secret : Bytes
  pub client_write_key : Bytes
  pub client_write_iv : Bytes
  pub server_write_key : Bytes
  pub server_write_iv : Bytes

unfoldable pub derive_handshake_keys : Bytes → Bytes → Bytes → Result HandshakeKeys
derive_handshake_keys label_prefix shared_secret hello_transcript_hash = do
  let zero32 = replicate hash_len 0
  early_secret ← extract zero32 zero32
  derived_early ← derive_secret early_secret label_prefix derived (sha256 [])
  handshake_secret ← extract derived_early shared_secret
  client_secret ← derive_secret handshake_secret label_prefix client_traffic hello_transcript_hash
  server_secret ← derive_secret handshake_secret label_prefix server_traffic hello_transcript_hash
  client_key ← expand_label client_secret label_prefix key_label [] key_len
  client_iv ← expand_label client_secret label_prefix iv_label [] nonce_len
  server_key ← expand_label server_secret label_prefix key_label [] key_len
  server_iv ← expand_label server_secret label_prefix iv_label [] nonce_len
  ok (record {
    handshake_secret = handshake_secret;
    client_handshake_traffic_secret = client_secret;
    server_handshake_traffic_secret = server_secret;
    client_write_key = client_key;
    client_write_iv = client_iv;
    server_write_key = server_key;
    server_write_iv = server_iv;
  })

unfoldable pub finished_compute : Bytes → Bytes → Bytes → Result Bytes
finished_compute label_prefix base_key transcript_hash = do
  finished_key ← expand_label base_key label_prefix finished_label [] hash_len
  ok (hmac_sha256 finished_key transcript_hash)

unfoldable pub finished_verify : Bytes → Bytes → Bytes → Bytes → Result (Unit {0})
finished_verify label_prefix base_key transcript_hash received_verify_data = do
  computed ← finished_compute label_prefix base_key transcript_hash
  diff ← diff_bytes 0 computed received_verify_data
  fail_if (diff != 0) auth_failed
