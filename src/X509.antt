-- ===== src/X509.antt =====
-- src/x509/x509.c: the certificate parser and the check of a chain. The P-256 operations of
-- include/nanodtls/p256.h are arguments. Pointers are valid, so the tests for NULL fall away; a
-- pointer into the certificate with its length is given by the bytes that it shows.
pub mod Parse
pub mod Chain
pub mod Returns
pub mod Total
pub mod Whole
pub mod TestCerts
mod Tests
use nano_dtls.Base.{
  ℕ, zero, suc, ◌+◌, ◌-◌, ◌*◌, Bool, true, false, not, ◌&&◌, ◌||◌, ◌==◌, ◌!=◌, ltb, leb, List, [],
  ◌∷◌, ◌++◌, if◌then◌else◌,
}
use nano_dtls.Base.{
  Bytes, length, get_or, take, drop, slice, Result, ok, err, fault, ◌>>=◌, ◌>>◌, fail_if,
  bad_length, bad_arg, unsupported, auth_failed,
}
use nano_dtls.Asn1.{
  tag_integer, tag_sequence, Tlv, TlvReader, parse_tlv, reader_init, reader_done, reader_next,
  read_bitstring_bytes, read_signature,
}

abbrev pub tag_boolean : ℕ
tag_boolean = 0x01

abbrev pub tag_octet_string : ℕ
tag_octet_string = 0x04

abbrev pub tag_oid : ℕ
tag_oid = 0x06

abbrev pub tag_utc_time : ℕ
tag_utc_time = 0x17

abbrev pub tag_generalized_time : ℕ
tag_generalized_time = 0x18

-- `ND_ASN1_TAG_CTX(n)`, for `n` below 32
abbrev pub tag_ctx : ℕ → ℕ
tag_ctx n = 0xa0 + n

abbrev pub oid_ecdsa_with_sha256 : Bytes
oid_ecdsa_with_sha256 = 0x2a ∷ 0x86 ∷ 0x48 ∷ 0xce ∷ 0x3d ∷ 0x04 ∷ 0x03 ∷ 0x02 ∷ []

abbrev pub oid_ec_public_key : Bytes
oid_ec_public_key = 0x2a ∷ 0x86 ∷ 0x48 ∷ 0xce ∷ 0x3d ∷ 0x02 ∷ 0x01 ∷ []

abbrev pub oid_prime256v1 : Bytes
oid_prime256v1 = 0x2a ∷ 0x86 ∷ 0x48 ∷ 0xce ∷ 0x3d ∷ 0x03 ∷ 0x01 ∷ 0x07 ∷ []

abbrev pub oid_basic_constraints : Bytes
oid_basic_constraints = 0x55 ∷ 0x1d ∷ 0x13 ∷ []

-- `der_eq`: the lengths, then the bytes.
abbrev pub der_eq : Bytes → Bytes → Bool
der_eq [] [] = true
der_eq [] (y ∷ ys) = false
der_eq (x ∷ xs) [] = false
der_eq (x ∷ xs) (y ∷ ys) = x == y && der_eq xs ys

abbrev pub oid_eq : Tlv → Bytes → Bool
oid_eq tlv oid = tlv.tag == tag_oid && der_eq tlv.value oid

-- `nd_x509_cert`
pub record Cert : Type 0 where
  pub tbs_der : Bytes
  pub issuer_der : Bytes
  pub subject_der : Bytes
  pub not_before : ℕ
  pub not_after : ℕ
  pub pubkey_qx : Bytes
  pub pubkey_qy : Bytes
  pub is_ca : Bool
  pub sig_r : Bytes
  pub sig_s : Bytes

abbrev pub all_digits : Bytes → Bool
all_digits [] = true
all_digits (x ∷ xs) = not (ltb x 48 || ltb 57 x) && all_digits xs

-- `p[i] - '0'`, where the byte is a digit.
abbrev pub digit : Bytes → ℕ → ℕ
digit p i = get_or p i 0 - 48

-- `d2(p + i)`
abbrev pub d2 : Bytes → ℕ → ℕ
d2 p i = digit p i * 10 + digit p (i + 1)

-- The year, and the fields from index `i` on, as one number.
abbrev pub fold_time : ℕ → Bytes → ℕ → ℕ
fold_time year p i =
    year * 10000000000
    + d2 p i * 100000000
    + d2 p (i + 2) * 1000000
    + d2 p (i + 4) * 10000
    + d2 p (i + 6) * 100
    + d2 p (i + 8)

unfoldable pub parse_time : Tlv → Result ℕ
parse_time tlv =
    let p = tlv.value in
    let utc = (do
      fail_if (length p != 13 || get_or p 12 0 != 90 || not (all_digits (take 12 p))) bad_length
      ok (fold_time (if leb 50 (d2 p 0) then 1900 + d2 p 0 else 2000 + d2 p 0) p 2)) in
    let generalized = (do
      fail_if (length p != 15 || get_or p 14 0 != 90 || not (all_digits (take 14 p))) bad_length
      ok (fold_time (digit p 0 * 1000 + digit p 1 * 100 + digit p 2 * 10 + digit p 3) p 4)) in
    if tlv.tag == tag_utc_time
    then utc
    else if tlv.tag == tag_generalized_time
    then generalized
    else err bad_arg

-- `cA` of a BasicConstraints that is not empty.
unfoldable pub ca_flag : Tlv → Result Bool
ca_flag bc_seq = do
  (ca_bool, rest) ← reader_next (reader_init bc_seq.value)
  ok (ca_bool.tag == tag_boolean && length ca_bool.value == 1 && get_or ca_bool.value 0 0 != 0)

-- The fields behind the OID of basicConstraints: whether `is_ca` is set.
unfoldable pub basic_constraints : TlvReader → Result Bool
basic_constraints xr = do
  (first, xr1) ← reader_next xr
  (field, xr2) ← (if first.tag == tag_boolean then reader_next xr1 else ok (first, xr1))
  fail_if (field.tag != tag_octet_string) bad_arg
  bc_seq ← parse_tlv field.value
  (if bc_seq.tag == tag_sequence && ltb 0 (length bc_seq.value) then ca_flag bc_seq else ok false)

-- The loop of `scan_extensions`, with `is_ca` as it was before.
unfoldable pub scan_loop : ℕ → TlvReader → Bool → Result Bool
scan_loop zero er is_ca = fault
scan_loop (suc fuel) er is_ca =
    let entry = (do
      (ext, er') ← reader_next er
      fail_if (ext.tag != tag_sequence) bad_arg
      (ext_oid, xr) ← reader_next (reader_init ext.value)
      ca ← (if oid_eq ext_oid oid_basic_constraints then basic_constraints xr else ok false)
      scan_loop fuel er' (is_ca || ca)) in
    if reader_done er then ok is_ca else entry

unfoldable pub scan_extensions : Tlv → Bool → Result Bool
scan_extensions ext_list_octets is_ca = do
  exts_seq ← parse_tlv ext_list_octets.value
  fail_if (exts_seq.tag != tag_sequence) bad_arg
  scan_loop (suc (length exts_seq.value)) (reader_init exts_seq.value) is_ca
