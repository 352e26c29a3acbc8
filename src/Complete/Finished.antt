-- ===== src/Complete/Finished.antt =====
-- The two Finished messages: each end's step on what the other one sends.
use nano_dtls.Base.{
  ℕ, suc, ◌+◌, ◌^◌, ◌<◌, ◌≡◌, ◌!=◌, refl, ap, ◌∙◌, arith, false, [], Bytes, length, ok, bind-ok,
  bind-returns, ok-injective,
}
use nano_dtls.Protect.{Protection, Unprotection, Unprotected, unprotect}
use nano_dtls.Handshake.Header.{hdr_len}
use nano_dtls.Transcript.{Transcript, snapshot, add}
use nano_dtls.Hmac.Nested.{length-hmac_sha256, hmac_sha256-IsBytes}
use nano_dtls.Hkdf.{hash_len, hkdf_label}
use nano_dtls.Hkdf.Stream.{output}
use nano_dtls.KeySchedule.{finished_label, finished_verify}
use nano_dtls.KeySchedule.Finished.{verify_data, finished_compute-ok, finished_verify_iff}
use nano_dtls.Driver.{
  seal_message, Crypto, max_msg, handshake_type, Opened, read_handshake, open_protected, expect,
  dtls13, hs_finished,
}
use nano_dtls.Driver.Accepted.{guard-passed, call-passed}
use nano_dtls.Driver.Delivery.{
  Seals, InStep, received_of, expect-received_of, seal_message-Delivery,
}
use nano_dtls.Client.{Session, on_finished, client_finished}
use nano_dtls.Server.{server_finished, on_client_finished}
use nano_dtls.Complete.Identity.{Exchange, exchanged}

-- The MAC that one end computes the other verifies.
finished_verify-verify_data :
    (secret hash : Bytes)
    → finished_verify dtls13 secret hash (verify_data dtls13 secret hash) ≡ ok tt
finished_verify-verify_data secret hash =
    let key : Bytes = output secret (hkdf_label dtls13 finished_label [] hash_len) hash_len in
    (finished_verify_iff dtls13 secret hash (verify_data dtls13 secret hash) (omega arith)
        (hmac_sha256-IsBytes key hash) (length-hmac_sha256 key hash)).0.1
      (finished_compute-ok dtls13 secret hash (omega arith))

on_finished-received_of :
    (secret : Bytes) (t : Transcript) (seq : ℕ)
    → let received = received_of hs_finished seq (verify_data dtls13 secret (snapshot t)) in
      on_finished secret t received ≡ ok (add t received.message)
unfolding on_finished
on_finished-received_of secret t seq =
    let key : Bytes = output secret (hkdf_label dtls13 finished_label [] hash_len) hash_len in
    let body : Bytes = verify_data dtls13 secret (snapshot t) in
    let sized : (length body != hash_len) ≡ false =
      ground (arith, length-hmac_sha256 key (snapshot t)) in
    bind-returns _ (expect-received_of hs_finished seq body)
      (rw sized (bind-returns _ (finished_verify-verify_data secret (snapshot t)) refl))

module _ (crypto : Crypto) (seals : Seals crypto.aead) (w : Protection) (u : Unprotection)
    (t : Transcript) (count : ℕ) (step : InStep w u count) (more : suc count < 2 ^ 14) where
  pub server_finished-Exchange :
      (secret : Bytes)
      → Exchange crypto u count
          (server_finished crypto secret w t)
          (on_finished secret t)
          (λ t'. t')
  unfolding server_finished
  server_finished-Exchange secret =
      let body : Bytes = verify_data dtls13 secret (snapshot t) in
      let key : Bytes = output secret (hkdf_label dtls13 finished_label [] hash_len) hash_len in
      let size : length body ≡ 32 = length-hmac_sha256 key (snapshot t) in
      exchanged crypto w u t count _ _ (received_of hs_finished 4 body) (on_finished secret t)
        (λ t'. t')
        (bind-returns _ (finished_compute-ok dtls13 secret (snapshot t) (omega arith)) refl)
        (seal_message-Delivery crypto seals w u t count hs_finished 4 body max_msg step more
          (omega arith) (hmac_sha256-IsBytes key (snapshot t)) (omega arith) (omega arith)
          (omega arith))
        (on_finished-received_of secret t 4)

  pub client_finished-Exchange :
      (session : Session)
      → session.client_write ≡ w
      → let secret = session.keys.client_handshake_traffic_secret in
        Exchange crypto u count (client_finished crypto session t) (on_finished secret t) (λ t'. t')
  unfolding client_finished
  client_finished-Exchange session writes =
      let secret : Bytes = session.keys.client_handshake_traffic_secret in
      let body : Bytes = verify_data dtls13 secret (snapshot t) in
      let key : Bytes = output secret (hkdf_label dtls13 finished_label [] hash_len) hash_len in
      let size : length body ≡ 32 = length-hmac_sha256 key (snapshot t) in
      exchanged crypto w u t count _ _ (received_of hs_finished 1 body) (on_finished secret t)
        (λ t'. t')
        (bind-returns _ (finished_compute-ok dtls13 secret (snapshot t) (omega arith))
          (ap (λ w'. seal_message crypto w' t hs_finished 1 body (hash_len + hdr_len)) writes))
        (seal_message-Delivery crypto seals w u t count hs_finished 1 body (hash_len + hdr_len) step
          more (omega arith) (hmac_sha256-IsBytes key (snapshot t)) (omega arith) (omega arith)
          (omega arith))
        (on_finished-received_of secret t 1)

-- The server opens a client's Finished as the client opens the server's.
pub on_client_finished-opened :
    (crypto : Crypto) (u : Unprotection) (datagram secret : Bytes) (t t' : Transcript)
    (opened : Opened)
    → open_protected crypto u datagram ≡ ok opened
    → on_finished secret t opened.received ≡ ok t'
    → (plain : Unprotected) × (unprotect crypto.aead u datagram max_msg ≡ ok plain)
      × (on_client_finished secret t plain ≡ ok tt)
unfolding open_protected on_finished on_client_finished
on_client_finished-opened crypto u datagram secret t t' opened h k =
    let (plain, e, h1) = bind-ok (unprotect crypto.aead u datagram max_msg) _ opened h in
    let (typed, h2) = guard-passed (plain.content_type != handshake_type) _ _ opened h1 in
    let (received, read, h3) = bind-ok (read_handshake plain.plaintext) _ opened h2 in
    let same : received ≡ opened.received = ap Opened.received (ok-injective _ opened h3) in
    let (expected, k1) = call-passed (expect hs_finished opened.received) _ t' k in
    let (sized, k2) = guard-passed (length opened.received.fragment != hash_len) _ _ t' k1 in
    let (verified, k3) =
      call-passed (finished_verify dtls13 secret (snapshot t) opened.received.fragment) _ t' k2 in
    (
      plain,
      e,
      rw typed (bind-returns _ (read ∙ ap ok same) (bind-returns _ expected (rw sized verified))),
    )
