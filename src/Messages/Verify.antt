-- ===== src/Messages/Verify.antt =====
-- What a CertificateVerify of src/handshake/messages.c signs, and its check. The verification of the
-- signature, `nd_p256_ecdsa_verify` of include/nanodtls/p256.h, is an argument: it takes the
-- coordinates of the key, the hash and the two numbers.
pub mod Accepts
use nano_dtls.Base.{ℕ, ◌+◌, ◌!=◌, ltb, ◌∷◌, ◌++◌, Bytes, length, replicate}
use nano_dtls.Base.{Result, ok, ◌>>=◌, ◌>>◌, fail_if, bad_length, unsupported}
use nano_dtls.Asn1.{read_signature}
use nano_dtls.Sha256.{sha256}
use nano_dtls.Messages.{CertificateVerify}

-- `ND_SIGSCHEME_ECDSA_SECP256R1_SHA256`
abbrev pub ecdsa_p256_sha256 : ℕ
ecdsa_p256_sha256 = 0x0403

-- `ND_CERT_VERIFY_CONTENT_MAX`
abbrev pub content_max : ℕ
content_max = 64 + 34 + 1 + 32

-- `nd_certificate_verify_content`; the transcript hash has 32 bytes.
unfoldable pub certificate_verify_content : Bytes → Bytes → ℕ → Result Bytes
certificate_verify_content context_string transcript_hash out_cap = do
  fail_if (ltb out_cap (64 + length context_string + 1 + 32)) bad_length
  ok (replicate 64 0x20 ++ (context_string ++ (0 ∷ transcript_hash)))

-- `nd_p256_ecdsa_verify`
abbrev pub Verify : Type 0
Verify = Bytes → Bytes → Bytes → Bytes → Bytes → Result (Unit {0})

-- `nd_certificate_verify_check`
unfoldable pub certificate_verify_check :
    Verify → CertificateVerify → Bytes → Bytes → Bytes → Bytes → Result (Unit {0})
certificate_verify_check ecdsa_verify msg context_string transcript_hash peer_qx peer_qy = do
  fail_if (msg.algorithm != ecdsa_p256_sha256) unsupported
  content ← certificate_verify_content context_string transcript_hash content_max
  (r, s) ← read_signature msg.signature
  ecdsa_verify peer_qx peer_qy (sha256 content) r s
