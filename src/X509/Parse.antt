-- ===== src/X509/Parse.antt =====
-- `nd_x509_parse` of src/x509/x509.c. Its blocks are functions of their own.
use nano_dtls.Base.{ℕ, zero, suc, ◌+◌, ◌*◌, Bool, false, not, ◌||◌, ◌==◌, ◌!=◌, if◌then◌else◌}
use nano_dtls.Base.{
  Bytes, length, get_or, slice, Result, ok, fault, ◌>>=◌, ◌>>◌, fail_if, bad_arg, unsupported,
}
use nano_dtls.Asn1.{
  tag_integer, tag_sequence, Tlv, TlvReader, parse_tlv, reader_init, reader_done, reader_next,
  read_bitstring_bytes, read_signature,
}
use nano_dtls.X509.{
  Cert, tag_ctx, oid_eq, oid_ecdsa_with_sha256, oid_ec_public_key, oid_prime256v1, parse_time,
  scan_extensions,
}

-- The whole element that the reader is in front of: its header and its value.
abbrev pub element : TlvReader → Tlv → Bytes
element r tlv = slice r.buf r.pos (tlv.header_len + length tlv.value)

-- The block on the signature algorithm.
unfoldable pub check_algorithm : Tlv → Result (Unit {0})
check_algorithm sig_alg_tlv = do
  (oid_tlv, sar) ← reader_next (reader_init sig_alg_tlv.value)
  fail_if (not (oid_eq oid_tlv oid_ecdsa_with_sha256)) unsupported

-- The block on the signature value.
unfoldable pub signature_value : Tlv → Result (Bytes × Bytes)
signature_value sig_val_tlv = do
  sig_bytes ← read_bitstring_bytes sig_val_tlv
  read_signature sig_bytes

-- The block on the validity.
unfoldable pub validity : Tlv → Result (ℕ × ℕ)
validity validity_tlv = do
  (nb, vr) ← reader_next (reader_init validity_tlv.value)
  (na, vr') ← reader_next vr
  not_before ← parse_time nb
  not_after ← parse_time na
  ok (not_before, not_after)

-- The block on the public key. `point_is_valid` is `nd_p256_point_is_valid(qx, qy) == ND_OK`.
unfoldable pub public_key : (Bytes → Bytes → Bool) → Tlv → Result (Bytes × Bytes)
public_key point_is_valid spki_tlv = do
  (alg_tlv, sr) ← reader_next (reader_init spki_tlv.value)
  (alg_oid, ar) ← reader_next (reader_init alg_tlv.value)
  fail_if (not (oid_eq alg_oid oid_ec_public_key)) unsupported
  (curve_oid, ar') ← reader_next ar
  fail_if (not (oid_eq curve_oid oid_prime256v1)) unsupported
  (key_bits_tlv, sr') ← reader_next sr
  key_bytes ← read_bitstring_bytes key_bits_tlv
  fail_if (length key_bytes != 1 + 2 * 32 || get_or key_bytes 0 0 != 0x04) unsupported
  fail_if (not (point_is_valid (slice key_bytes 1 32) (slice key_bytes 33 32))) bad_arg
  ok (slice key_bytes 1 32, slice key_bytes 33 32)

-- The last loop, over the optional fields: whether the certificate is a CA's.
unfoldable pub optional_fields : ℕ → TlvReader → Bool → Result Bool
optional_fields zero tbs_r is_ca = fault
optional_fields (suc fuel) tbs_r is_ca =
    let field = (do
      (opt, tbs_r') ← reader_next tbs_r
      ca ← (if opt.tag == tag_ctx 3 then scan_extensions opt is_ca else ok is_ca)
      optional_fields fuel tbs_r' ca) in
    if reader_done tbs_r then ok is_ca else field

-- The serial number, behind a version that may be there.
unfoldable pub serial_number : TlvReader → Result (Tlv × TlvReader)
serial_number tbs_r = do
  (first, tbs_r1) ← reader_next tbs_r
  (field, tbs_r2) ← (if first.tag == tag_ctx 0 then reader_next tbs_r1 else ok (first, tbs_r1))
  fail_if (field.tag != tag_integer) bad_arg
  ok (field, tbs_r2)

-- The part inside the TBSCertificate, with the signature that was read before it.
unfoldable pub parse_tbs : (Bytes → Bytes → Bool) → Tlv → Bytes → Bytes → Bytes → Result Cert
parse_tbs point_is_valid tbs_tlv tbs_der sig_r sig_s = do
  (serial, tbs_r2) ← serial_number (reader_init tbs_tlv.value)
  (inner_sig_alg, tbs_r3) ← reader_next tbs_r2
  (issuer_tlv, tbs_r4) ← reader_next tbs_r3
  (validity_tlv, tbs_r5) ← reader_next tbs_r4
  (not_before, not_after) ← validity validity_tlv
  (subject_tlv, tbs_r6) ← reader_next tbs_r5
  (spki_tlv, tbs_r7) ← reader_next tbs_r6
  (qx, qy) ← public_key point_is_valid spki_tlv
  is_ca ← optional_fields (suc (length tbs_tlv.value)) tbs_r7 false
  ok (record {
    tbs_der = tbs_der;
    issuer_der = element tbs_r3 issuer_tlv;
    subject_der = element tbs_r5 subject_tlv;
    not_before = not_before;
    not_after = not_after;
    pubkey_qx = qx;
    pubkey_qy = qy;
    is_ca = is_ca;
    sig_r = sig_r;
    sig_s = sig_s;
  })

-- `nd_x509_parse`
unfoldable pub x509_parse : (Bytes → Bytes → Bool) → Bytes → Result Cert
x509_parse point_is_valid der = do
  cert_tlv ← parse_tlv der
  fail_if (cert_tlv.tag != tag_sequence) bad_arg
  (tbs_tlv, cert_r1) ← reader_next (reader_init cert_tlv.value)
  fail_if (tbs_tlv.tag != tag_sequence) bad_arg
  (sig_alg_tlv, cert_r2) ← reader_next cert_r1
  check_algorithm sig_alg_tlv
  (sig_val_tlv, cert_r3) ← reader_next cert_r2
  (sig_r, sig_s) ← signature_value sig_val_tlv
  parse_tbs point_is_valid tbs_tlv (element (reader_init cert_tlv.value) tbs_tlv) sig_r sig_s
