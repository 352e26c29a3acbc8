-- ===== src/X509/Total.antt =====
-- That the blocks of `nd_x509_parse` return.
use nano_dtls.Base.{
  ℕ, zero, suc, ◌+◌, ◌-◌, ◌*◌, ◌≤◌, ◌<◌, ◌≢◌, refl, arith, Bool, true, false, not, ◌&&◌, ◌||◌, ◌==◌,
  ◌!=◌, ltb, if◌then◌else◌,
}
use nano_dtls.Base.{
  Bytes, length, get_or, take, slice, Result, ok, err, fault, ◌>>=◌, ◌>>◌, fail_if, Status,
  bad_length, bad_arg, unsupported,
}
use nano_dtls.Asn1.{
  tag_sequence, Tlv, TlvReader, parse_tlv, reader_init, reader_done, reader_next, read_uint_fixed,
  read_bitstring_bytes, read_signature,
}
use nano_dtls.X509.{
  tag_boolean, tag_octet_string, tag_utc_time, tag_generalized_time, tag_ctx, oid_eq,
  oid_ecdsa_with_sha256, oid_ec_public_key, oid_prime256v1, oid_basic_constraints, all_digits,
  parse_time, ca_flag, basic_constraints, scan_loop, scan_extensions,
}
use nano_dtls.X509.Parse.{check_algorithm, signature_value, validity, public_key, optional_fields}
use nano_dtls.X509.Returns.{Returns, Forward, bind-Returns, parse_tlv-Returns, reader_next-Returns}

-- No fault, whatever the value.
abbrev pub Total : {A : Type 0} → Result A → Type 0
Total m = Returns (λ _. Unit) m

pub step :
    {A B : Type 0} (m : Result A) (f : A → Result B)
    → Total m
    → ((a : A) → Total (f a))
    → Total (m >>= f)
step m f h next = bind-Returns (λ _. Unit) (λ _. Unit) m f h λ a _. next a

pub next_tlv :
    {B : Type 0} (r : TlvReader) (f : Tlv × TlvReader → Result B)
    → ((x : Tlv × TlvReader) → Total (f x))
    → Total (reader_next r >>= f)
next_tlv r f next =
    bind-Returns (Forward r) (λ _. Unit) (reader_next r) f (reader_next-Returns r) λ x _. next x

pub parsed :
    {B : Type 0} (buf : Bytes) (f : Tlv → Result B)
    → ((t : Tlv) → Total (f t))
    → Total (parse_tlv buf >>= f)
parsed buf f next =
    bind-Returns (λ t. 2 ≤ t.header_len) (λ _. Unit) (parse_tlv buf) f (parse_tlv-Returns buf)
      λ t _. next t

next_total : (r : TlvReader) → Total (reader_next r)
next_total r = weaken (reader_next r) (reader_next-Returns r)
  where
    weaken : (m : Result (Tlv × TlvReader)) → Returns (Forward r) m → Total m
    weaken (ok x) h = tt
    weaken (err e) h = tt
    weaken fault h = h

if-Total : {A : Type 0} (b : Bool) (x y : Result A) → Total x → Total y → Total (if b then x else y)
if-Total true x y h g = h
if-Total false x y h g = g

no_fault : {A : Type 0} (m : Result A) → m ≢ fault → Total m
no_fault (ok a) h = tt
no_fault (err e) h = tt
no_fault fault h = h refl

pub guard : {B : Type 0} (b : Bool) (e : Status) (k : Result B) → Total k → Total (fail_if b e >> k)
guard true e k h = tt
guard false e k h = h

read_uint_fixed-Total : (tlv : Tlv) (n : ℕ) → Total (read_uint_fixed tlv n)
unfolding read_uint_fixed
read_uint_fixed-Total tlv n = no_fault (read_uint_fixed tlv n) (ground arith)

read_bitstring_bytes-Total : (tlv : Tlv) → Total (read_bitstring_bytes tlv)
unfolding read_bitstring_bytes
read_bitstring_bytes-Total tlv = no_fault (read_bitstring_bytes tlv) (ground arith)

parse_time-Total : (tlv : Tlv) → Total (parse_time tlv)
unfolding parse_time
parse_time-Total tlv =
    let p = tlv.value in
    if-Total (tlv.tag == tag_utc_time) _ _
      (guard (length p != 13 || get_or p 12 0 != 90 || not (all_digits (take 12 p))) bad_length _
        tt)
      (if-Total (tlv.tag == tag_generalized_time) _ _
        (guard (length p != 15 || get_or p 14 0 != 90 || not (all_digits (take 14 p))) bad_length _
          tt)
        tt)

read_signature-Total : (der : Bytes) → Total (read_signature der)
unfolding read_signature
read_signature-Total der = parsed der _ λ seq. guard (seq.tag != tag_sequence) bad_arg _ (
    next_tlv (reader_init seq.value) _ λ x. next_tlv x.1 _ λ y.
      step (read_uint_fixed x.0 32) _ (read_uint_fixed-Total x.0 32)
        λ r. step (read_uint_fixed y.0 32) _ (read_uint_fixed-Total y.0 32) λ s. tt)

ca_flag-Total : (tlv : Tlv) → Total (ca_flag tlv)
unfolding ca_flag
ca_flag-Total tlv = next_tlv (reader_init tlv.value) _ λ x. tt

basic_constraints-Total : (r : TlvReader) → Total (basic_constraints r)
unfolding basic_constraints
basic_constraints-Total r = next_tlv r _ λ x.
    step (if x.0.tag == tag_boolean then reader_next x.1 else ok (x.0, x.1)) _ (field x) λ y.
      guard (y.0.tag != tag_octet_string) bad_arg _ (
        parsed y.0.value _ λ t.
          if-Total (t.tag == tag_sequence && ltb 0 (length t.value)) (ca_flag t) (ok false)
            (ca_flag-Total t) tt)
  where
    field :
        (x : Tlv × TlvReader)
        → Total (if x.0.tag == tag_boolean then reader_next x.1 else ok (x.0, x.1))
    field x =
        if-Total (x.0.tag == tag_boolean) (reader_next x.1) (ok (x.0, x.1)) (next_total x.1) tt

scan_loop-Total :
    (fuel : ℕ) (r : TlvReader) (is_ca : Bool)
    → length r.buf - r.pos < fuel
    → Total (scan_loop fuel r is_ca)
unfolding scan_loop
scan_loop-Total zero r is_ca enough = absurd (omega arith)
scan_loop-Total (suc fuel) r is_ca enough = if-Total (reader_done r) (ok is_ca) _ tt (
    bind-Returns (Forward r) (λ _. Unit) (reader_next r) _ (reader_next-Returns r)
      λ x (same, inside, far). guard (x.0.tag != tag_sequence) bad_arg _ (
        next_tlv (reader_init x.0.value) _ λ y.
          step (if oid_eq y.0 oid_basic_constraints then basic_constraints y.1 else ok false) _
            (if-Total (oid_eq y.0 oid_basic_constraints) (basic_constraints y.1) (ok false)
              (basic_constraints-Total y.1) tt)
            λ ca. scan_loop-Total fuel x.1 (is_ca || ca) (rw same (omega arith))))

scan_extensions-Total : (tlv : Tlv) (is_ca : Bool) → Total (scan_extensions tlv is_ca)
unfolding scan_extensions
scan_extensions-Total tlv is_ca = parsed tlv.value _ λ t.
    guard (t.tag != tag_sequence) bad_arg _
      (scan_loop-Total (suc (length t.value)) (reader_init t.value) is_ca (omega arith))

pub optional_fields-Total :
    (fuel : ℕ) (r : TlvReader) (is_ca : Bool)
    → length r.buf - r.pos < fuel
    → Total (optional_fields fuel r is_ca)
unfolding optional_fields
optional_fields-Total zero r is_ca enough = absurd (omega arith)
optional_fields-Total (suc fuel) r is_ca enough = if-Total (reader_done r) (ok is_ca) _ tt (
    bind-Returns (Forward r) (λ _. Unit) (reader_next r) _ (reader_next-Returns r)
      λ x (same, inside, far).
        step (if x.0.tag == tag_ctx 3 then scan_extensions x.0 is_ca else ok is_ca) _
          (if-Total (x.0.tag == tag_ctx 3) (scan_extensions x.0 is_ca) (ok is_ca)
            (scan_extensions-Total x.0 is_ca) tt)
          λ ca. optional_fields-Total fuel x.1 ca (rw same (omega arith)))

pub check_algorithm-Total : (tlv : Tlv) → Total (check_algorithm tlv)
unfolding check_algorithm
check_algorithm-Total tlv =
    next_tlv (reader_init tlv.value) _
      λ x. no_fault (fail_if (not (oid_eq x.0 oid_ecdsa_with_sha256)) unsupported) (ground arith)

pub signature_value-Total : (tlv : Tlv) → Total (signature_value tlv)
unfolding signature_value
signature_value-Total tlv =
    step (read_bitstring_bytes tlv) _ (read_bitstring_bytes-Total tlv)
      λ der. read_signature-Total der

pub validity-Total : (tlv : Tlv) → Total (validity tlv)
unfolding validity
validity-Total tlv = next_tlv (reader_init tlv.value) _ λ x. next_tlv x.1 _ λ y.
    step (parse_time x.0) _ (parse_time-Total x.0)
      λ nb. step (parse_time y.0) _ (parse_time-Total y.0) λ na. tt

pub public_key-Total :
    (point_is_valid : Bytes → Bytes → Bool) (tlv : Tlv) → Total (public_key point_is_valid tlv)
unfolding public_key
public_key-Total point_is_valid tlv = next_tlv (reader_init tlv.value) _ λ x.
    next_tlv (reader_init x.0.value) _ λ y.
      guard (not (oid_eq y.0 oid_ec_public_key)) unsupported _ (
        next_tlv y.1 _ λ z. guard (not (oid_eq z.0 oid_prime256v1)) unsupported _ (
          next_tlv x.1 _ λ w.
            step (read_bitstring_bytes w.0) _ (read_bitstring_bytes-Total w.0) λ key.
              guard (length key != 1 + 2 * 32 || get_or key 0 0 != 0x04) unsupported _
                (guard (not (point_is_valid (slice key 1 32) (slice key 33 32))) bad_arg _ tt)))
