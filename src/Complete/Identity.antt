-- ===== src/Complete/Identity.antt =====
-- The protected messages: each end's step on what the other one sends.
use nano_dtls.Base.{
  IsBytes, ℕ, suc, ◌+◌, ◌^◌, ◌≤◌, ◌<◌, ◌≡◌, refl, sym, ap, ◌∙◌, arith, List, [], ◌∷◌, ◌++◌, Bytes,
  length, Result, ok, bind-returns,
}
use mathlib.Core.List.{append-nil}
use nano_dtls.Protect.{Protection, Unprotection, max_inner}
use nano_dtls.Handshake.Header.{hdr_len}
use nano_dtls.Sha256.{sha256}
use nano_dtls.Transcript.{Transcript, add, snapshot}
use nano_dtls.Messages.{certificate_parse, certificate_serialize, max_certs}
use nano_dtls.Messages.Certificate.{certificate_message, certificate_roundtrip}
use nano_dtls.Messages.Verify.{certificate_verify_content}
use nano_dtls.Messages.Verify.Accepts.{certificate_verify_check-written, signed_content}
use nano_dtls.Messages.Sent.{encrypted_extensions_parse-sent, certificate_verify_parse-written}
use nano_dtls.Asn1.{write_ecdsa_sig_value}
use nano_dtls.Asn1.Signature.{signature, length-signature}
use nano_dtls.X509.{Cert}
use nano_dtls.X509.Chain.{verify_chain}
use nano_dtls.Driver.{
  Crypto, max_msg, Received, Opened, Outgoing, open_protected, server_context,
  hs_encrypted_extensions, hs_certificate, hs_certificate_verify,
}
use nano_dtls.Driver.Delivery.{
  Seals, InStep, Delivery, received_of, expect-received_of, seal_message-Delivery,
}
use nano_dtls.Client.{
  Trusted, on_encrypted_extensions, parse_certificates, on_certificate, on_certificate_verify,
  on_finished,
}
use nano_dtls.Client
use nano_dtls.Server.{
  encrypted_extensions, certificate, verify_body, certificate_verify, server_finished,
}
use nano_dtls.Server
use nano_dtls.Complete.Bytes.{AllBytes, certificate_message-IsBytes, signature-IsBytes}
use nano_dtls.Complete.Hello.{fits}

-- A message that one end seals, and what the other end's handler answers; the ends stay in step.
pub record Exchange {A : Type 0} (crypto : Crypto) (u : Unprotection) (count : ℕ)
    (sealing : Result Outgoing) (handle : Received → Result A) (answer : Transcript → A)
    : Type 0 where
  pub out : Outgoing
  pub opened : Opened
  pub sealed : sealing ≡ ok out
  pub arrived : open_protected crypto u out.out ≡ ok opened
  pub handled : handle opened.received ≡ ok (answer out.transcript)
  pub in_step : InStep out.writer opened.reader (suc count)

pub exchanged :
    {A : Type 0} (crypto : Crypto) (w : Protection) (u : Unprotection) (t : Transcript) (count : ℕ)
    (message sealing : Result Outgoing) (received : Received) (handle : Received → Result A)
    (answer : Transcript → A)
    → message ≡ sealing
    → Delivery crypto w u t count sealing received
    → handle received ≡ ok (answer (add t received.message))
    → Exchange crypto u count message handle answer
exchanged crypto w u t count message sealing received handle answer same d handled = record {
  out = d.out;
  opened = record d.opened { received = received };
  sealed = same ∙ d.sealed;
  arrived = d.received_is;
  handled = handled ∙ ap (λ t'. ok (answer t')) (sym d.transcript);
  in_step = d.in_step;
}

module _ (crypto : Crypto) (seals : Seals crypto.aead) (w : Protection) (u : Unprotection)
    (t : Transcript) (count : ℕ) (step : InStep w u count) (more : suc count < 2 ^ 14) where
  pub encrypted_extensions-Exchange :
      Exchange crypto u count
        (encrypted_extensions crypto w t)
        (on_encrypted_extensions t)
        (λ t'. t')
  unfolding encrypted_extensions on_encrypted_extensions
  encrypted_extensions-Exchange =
      exchanged crypto w u t count _ _ (received_of hs_encrypted_extensions 1 (0 ∷ 0 ∷ []))
        (on_encrypted_extensions t) (λ t'. t')
        (bind-returns _ encrypted_extensions_parse-sent.0 refl)
        (seal_message-Delivery crypto seals w u t count hs_encrypted_extensions 1 (0 ∷ 0 ∷ [])
          max_msg step more (omega arith) (omega arith, (omega arith, tt)) (omega arith)
          (omega arith) (omega arith))
        (bind-returns _ (expect-received_of hs_encrypted_extensions 1 (0 ∷ 0 ∷ []))
          (bind-returns _ encrypted_extensions_parse-sent.1 refl))

  -- A chain that verifies, in a message that one record can hold.
  pub certificate-Exchange :
      (client : Client.Config) (server : Server.Config) (leaf : Cert) (rest : List Cert)
      → 0 < length server.certs
      → length server.certs ≤ max_certs
      → hdr_len + length (certificate_message server.certs) < max_inner
      → AllBytes server.certs
      → parse_certificates crypto server.certs ≡ ok (leaf ∷ rest)
      → verify_chain crypto.ecdsa_verify (leaf ∷ rest) client.trust_anchor client.at_time ≡ ok tt
      → Exchange crypto u count
          (certificate crypto server w t)
          (on_certificate crypto client t)
          (λ t'. record { leaf = leaf; transcript = t' })
  unfolding certificate on_certificate
  certificate-Exchange client server leaf rest some few short bytes parsed trusted =
      let body : Bytes = certificate_message server.certs in
      let (written, read) =
        fits body max_msg (certificate_serialize server.certs max_msg)
          (certificate_parse (body ++ [])) (ok server.certs) (omega arith)
          (certificate_roundtrip server.certs max_msg [] some few (omega arith)) in
      let d =
        seal_message-Delivery crypto seals w u t count hs_certificate 2 body max_msg step more
          (omega arith) (certificate_message-IsBytes server.certs bytes) (omega arith) short
          (omega arith) in
      exchanged crypto w u t count _ _ (received_of hs_certificate 2 body)
        (on_certificate crypto client t) (λ t'. record { leaf = leaf; transcript = t' })
        (bind-returns _ written refl) d
        (bind-returns _ (expect-received_of hs_certificate 2 body) (
          bind-returns _ (ap certificate_parse (sym (append-nil body)) ∙ read)
            (bind-returns _ parsed (bind-returns _ trusted refl))))

  -- A signature that verifies with the leaf's key.
  pub certificate_verify-Exchange :
      (server : Server.Config) (leaf : Cert) (r s : Bytes)
      → length r ≡ 32
      → length s ≡ 32
      → IsBytes r
      → IsBytes s
      → server.sign_fn (sha256 (signed_content server_context (snapshot t))) ≡ ok (r, s)
      → crypto.ecdsa_verify leaf.pubkey_qx leaf.pubkey_qy
          (sha256 (signed_content server_context (snapshot t)))
          r
          s
        ≡ ok tt
      → Exchange crypto u count
          (certificate_verify crypto server w t)
          (on_certificate_verify crypto (record { leaf = leaf; transcript = t }))
          (λ t'. t')
  unfolding certificate_verify on_certificate_verify certificate_verify_content
  certificate_verify-Exchange server leaf r s hr hs br bs signs verifies =
      let sig : Bytes = signature r s in
      let sig_bytes : IsBytes (verify_body sig) =
        (omega arith, (omega arith, (omega arith, (omega arith, signature-IsBytes r s br bs)))) in
      let small : length sig ≤ 80 = length-signature r s hr hs in
      let (written, checked) = fits sig 80 (write_ecdsa_sig_value r s 80) _ _ small (
        certificate_verify_check-written crypto.ecdsa_verify r s 80 server_context (snapshot t)
          leaf.pubkey_qx leaf.pubkey_qy hr hs (omega arith)) in
      let d =
        seal_message-Delivery crypto seals w u t count hs_certificate_verify 3 (verify_body sig)
          max_msg step more (omega arith) sig_bytes (omega arith) (omega arith) (omega arith) in
      exchanged crypto w u t count _ _ (received_of hs_certificate_verify 3 (verify_body sig))
        (on_certificate_verify crypto (record { leaf = leaf; transcript = t })) (λ t'. t')
        (bind-returns _ signs (bind-returns _ written refl)) d
        (bind-returns _ (expect-received_of hs_certificate_verify 3 (verify_body sig)) (
          bind-returns _ (certificate_verify_parse-written sig (omega arith))
            (bind-returns _ (checked ∙ verifies) refl)))
