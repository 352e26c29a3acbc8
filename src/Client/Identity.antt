-- ===== src/Client/Identity.antt =====
-- What the client has checked of the server's certificates, signature and Finished.
use nano_dtls.Base.{
  ◌≡◌, sym, ap, ◌∙◌, arith, ◌!=◌, List, [], ◌∷◌, Bytes, length, Result, ok, bind-ok, ok-injective,
}
use nano_dtls.Sha256.{sha256}
use nano_dtls.Sha256.Padding.{joined}
use nano_dtls.Transcript.{Transcript, add, snapshot, empty}
use nano_dtls.Transcript.Snapshot.{add_all, snapshot-add_all}
use nano_dtls.Hkdf.{hash_len}
use nano_dtls.KeySchedule.{finished_verify}
use nano_dtls.Messages.{
  CertificateVerify, encrypted_extensions_parse, certificate_parse, certificate_verify_parse,
}
use nano_dtls.Messages.Verify.{certificate_verify_check}
use nano_dtls.X509.{Cert}
use nano_dtls.X509.Chain.{verify_chain}
use nano_dtls.Driver.{
  Crypto, Received, dtls13, server_context, expect, read_handshake, hs_encrypted_extensions,
  hs_certificate, hs_certificate_verify, hs_finished,
}
use nano_dtls.Driver.Accepted.{FinishedAccepted, Message, whole, guard-passed, call-passed}
use nano_dtls.Client.{
  Config, Trusted, on_encrypted_extensions, on_certificate, on_certificate_verify, on_finished,
  parse_certificates, first_cert,
}

pub record ExtensionsAccepted (message : Bytes) : Type 0 where
  pub body : Bytes
  pub is_extensions : Message hs_encrypted_extensions message body
  pub read : encrypted_extensions_parse body ≡ ok tt

pub on_encrypted_extensions-ExtensionsAccepted :
    (t : Transcript) (received : Received) (t' : Transcript)
    → read_handshake received.message ≡ ok received
    → on_encrypted_extensions t received ≡ ok t'
    → ExtensionsAccepted received.message × (t' ≡ add t received.message)
unfolding on_encrypted_extensions
on_encrypted_extensions-ExtensionsAccepted t received t' parsed h =
    let (expected, h1) = call-passed (expect hs_encrypted_extensions received) _ t' h in
    let (read, h2) = call-passed (encrypted_extensions_parse received.fragment) _ t' h1 in
    (
      record {
        body = received.fragment;
        is_extensions = whole hs_encrypted_extensions received parsed expected;
        read = read;
      },
      sym (ok-injective _ t' h2),
    )

-- The certificates of the message are a chain that leads to the trust anchor, at the client's time,
-- and the leaf is the first of them.
pub record CertificateAccepted (crypto : Crypto) (config : Config) (message : Bytes) (leaf : Cert)
    : Type 0 where
  pub body : Bytes
  pub ders : List Bytes
  pub rest : List Cert
  pub is_certificate : Message hs_certificate message body
  pub read : certificate_parse body ≡ ok ders
  pub parsed : parse_certificates crypto ders ≡ ok (leaf ∷ rest)
  pub trusted :
      verify_chain crypto.ecdsa_verify (leaf ∷ rest) config.trust_anchor config.at_time ≡ ok tt

first_cert-ok :
    (chain : List Cert) (leaf : Cert)
    → first_cert chain ≡ ok leaf
    → (rest : List Cert) × (chain ≡ leaf ∷ rest)
first_cert-ok [] leaf h = absurd (ground (arith, h))
first_cert-ok (cert ∷ certs) leaf h = (certs, ap (λ c. c ∷ certs) (ok-injective cert leaf h))

pub on_certificate-CertificateAccepted :
    (crypto : Crypto) (config : Config) (t : Transcript) (received : Received) (trusted : Trusted)
    → read_handshake received.message ≡ ok received
    → on_certificate crypto config t received ≡ ok trusted
    → CertificateAccepted crypto config received.message trusted.leaf
      × (trusted.transcript ≡ add t received.message)
unfolding on_certificate
on_certificate-CertificateAccepted crypto config t received trusted whole_message h =
    let (expected, h1) = call-passed (expect hs_certificate received) _ trusted h in
    let (ders, read, h2) = bind-ok (certificate_parse received.fragment) _ trusted h1 in
    let (chain, parsed, h3) = bind-ok (parse_certificates crypto ders) _ trusted h2 in
    let (valid, h4) =
      call-passed (verify_chain crypto.ecdsa_verify chain config.trust_anchor config.at_time) _
        trusted h3 in
    let (leaf, first, h5) = bind-ok (first_cert chain) _ trusted h4 in
    let leaf_same : leaf ≡ trusted.leaf = ap Trusted.leaf (ok-injective _ trusted h5) in
    let (rest, split) = first_cert-ok chain trusted.leaf (first ∙ ap ok leaf_same) in
    (
      record {
        body = received.fragment;
        ders = ders;
        rest = rest;
        is_certificate = whole hs_certificate received whole_message expected;
        read = read;
        parsed = parsed ∙ ap ok split;
        trusted =
            ap (λ c. verify_chain crypto.ecdsa_verify c config.trust_anchor config.at_time)
              (sym split)
            ∙ valid;
      },
      sym (ap Trusted.transcript (ok-injective _ trusted h5)),
    )

-- The leaf's key signed the hash of the messages before.
pub record VerifyAccepted (crypto : Crypto) (leaf : Cert) (messages : List Bytes) (message : Bytes)
    : Type 0 where
  pub body : Bytes
  pub msg : CertificateVerify
  pub is_verify : Message hs_certificate_verify message body
  pub read : certificate_verify_parse body ≡ ok msg
  pub signed :
      certificate_verify_check crypto.ecdsa_verify msg server_context
        (sha256 (joined messages))
        leaf.pubkey_qx
        leaf.pubkey_qy
      ≡ ok tt

pub on_certificate_verify-VerifyAccepted :
    (crypto : Crypto) (trusted : Trusted) (received : Received) (t' : Transcript)
    (messages : List Bytes)
    → trusted.transcript ≡ add_all messages empty
    → read_handshake received.message ≡ ok received
    → on_certificate_verify crypto trusted received ≡ ok t'
    → VerifyAccepted crypto trusted.leaf messages received.message
      × (t' ≡ add trusted.transcript received.message)
unfolding on_certificate_verify
on_certificate_verify-VerifyAccepted crypto trusted received t' messages so_far parsed h =
    let (expected, h1) = call-passed (expect hs_certificate_verify received) _ t' h in
    let (msg, read, h2) = bind-ok (certificate_verify_parse received.fragment) _ t' h1 in
    let check : Bytes → Result (Unit {0}) = λ hash.
      certificate_verify_check crypto.ecdsa_verify msg server_context hash trusted.leaf.pubkey_qx
        trusted.leaf.pubkey_qy in
    let (signed, h3) = call-passed (check (snapshot trusted.transcript)) _ t' h2 in
    (
      record {
        body = received.fragment;
        msg = msg;
        is_verify = whole hs_certificate_verify received parsed expected;
        read = read;
        signed = ap check (sym (ap snapshot so_far ∙ snapshot-add_all messages)) ∙ signed;
      },
      sym (ok-injective _ t' h3),
    )

-- The server's Finished.
pub on_finished-FinishedAccepted :
    (secret : Bytes) (t : Transcript) (received : Received) (t' : Transcript)
    (messages : List Bytes)
    → t ≡ add_all messages empty
    → read_handshake received.message ≡ ok received
    → on_finished secret t received ≡ ok t'
    → FinishedAccepted secret messages received.message × (t' ≡ add t received.message)
unfolding on_finished
on_finished-FinishedAccepted secret t received t' messages so_far parsed h =
    let (expected, h1) = call-passed (expect hs_finished received) _ t' h in
    let (sized, h2) = guard-passed (length received.fragment != hash_len) _ _ t' h1 in
    let check : Bytes → Result (Unit {0}) =
      λ hash. finished_verify dtls13 secret hash received.fragment in
    let (verified, h3) = call-passed (check (snapshot t)) _ t' h2 in
    (
      record {
        body = received.fragment;
        is_finished = whole hs_finished received parsed expected;
        sized = ground (arith, sized);
        verified = ap check (sym (ap snapshot so_far ∙ snapshot-add_all messages)) ∙ verified;
      },
      sym (ok-injective _ t' h3),
    )
