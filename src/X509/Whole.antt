-- ===== src/X509/Whole.antt =====
-- That `nd_x509_parse` returns on every buffer, from its blocks.
use nano_dtls.Base.{suc, ◌≡◌, ◌≢◌, ◌∙◌, arith, Bool, true, false, ◌==◌, ◌!=◌, if◌then◌else◌}
use nano_dtls.Base.{Bytes, length, Result, ok, err, fault, ◌>>◌, fail_if, bad_arg}
use nano_dtls.Asn1.{tag_integer, tag_sequence, Tlv, TlvReader, reader_init, reader_next}
use nano_dtls.X509.{Cert, tag_ctx}
use nano_dtls.X509.Parse.{
  check_algorithm, signature_value, validity, public_key, optional_fields, serial_number, parse_tbs,
  x509_parse,
}
use nano_dtls.X509.Returns.{Returns, Forward, bind-Returns, reader_next-Returns}
use nano_dtls.X509.Total.{
  Total, step, next_tlv, parsed, guard, public_key-Total, validity-Total, signature_value-Total,
  check_algorithm-Total, optional_fields-Total,
}

-- The serial number leaves the reader in its buffer.
serial_number-Returns : (r : TlvReader) → Returns (λ x. x.1.buf ≡ r.buf) (serial_number r)
unfolding serial_number
serial_number-Returns r =
    bind-Returns (Forward r) (λ x. x.1.buf ≡ r.buf) (reader_next r) _ (reader_next-Returns r)
      λ x (same, _, _).
        bind-Returns (λ y. y.1.buf ≡ r.buf) (λ y. y.1.buf ≡ r.buf)
          (if x.0.tag == tag_ctx 0 then reader_next x.1 else ok (x.0, x.1)) _
          (pick (x.0.tag == tag_ctx 0) x same) λ y kept. serial y kept (y.0.tag != tag_integer)
  where
    weaken :
        (s : TlvReader) (m : Result (Tlv × TlvReader))
        → s.buf ≡ r.buf
        → Returns (Forward s) m
        → Returns (λ y. y.1.buf ≡ r.buf) m
    weaken s (ok y) same h = h.0 ∙ same
    weaken s (err e) same h = tt
    weaken s fault same h = h

    pick :
        (b : Bool) (x : Tlv × TlvReader)
        → x.1.buf ≡ r.buf
        → Returns (λ y. y.1.buf ≡ r.buf) (if b then reader_next x.1 else ok (x.0, x.1))
    pick true x same = weaken x.1 (reader_next x.1) same (reader_next-Returns x.1)
    pick false x same = same

    serial :
        (y : Tlv × TlvReader)
        → y.1.buf ≡ r.buf
        → (b : Bool)
        → Returns {A = Tlv × TlvReader} (λ z. z.1.buf ≡ r.buf) (fail_if b bad_arg >> ok (y.0, y.1))
    serial y kept true = tt
    serial y kept false = kept

parse_tbs-Total :
    (point_is_valid : Bytes → Bytes → Bool) (tbs : Tlv) (der r s : Bytes)
    → Total (parse_tbs point_is_valid tbs der r s)
unfolding parse_tbs
parse_tbs-Total point_is_valid tbs der r s =
    bind-Returns (λ x. x.1.buf ≡ tbs.value) (λ _. Unit) (serial_number (reader_init tbs.value)) _
      (serial_number-Returns (reader_init tbs.value))
      λ x e2.
        bind-Returns (Forward x.1) (λ _. Unit) (reader_next x.1) _ (reader_next-Returns x.1)
          λ a (e3, _, _).
            bind-Returns (Forward a.1) (λ _. Unit) (reader_next a.1) _ (reader_next-Returns a.1)
              λ b (e4, _, _).
                bind-Returns (Forward b.1) (λ _. Unit) (reader_next b.1) _ (reader_next-Returns b.1)
                  λ c (e5, _, _). step (validity c.0) _ (validity-Total c.0) λ times.
                    bind-Returns (Forward c.1) (λ _. Unit) (reader_next c.1) _
                      (reader_next-Returns c.1)
                      λ d (e6, _, _).
                        bind-Returns (Forward d.1) (λ _. Unit) (reader_next d.1) _
                          (reader_next-Returns d.1)
                          λ k (e7, _, _).
                            step (public_key point_is_valid k.0) _
                              (public_key-Total point_is_valid k.0)
                              λ key.
                                step (optional_fields (suc (length tbs.value)) k.1 false) _
                                  (optional_fields-Total (suc (length tbs.value)) k.1 false
                                    (rw (e7, e6, e5, e4, e3, e2) (omega arith)))
                                  λ is_ca. tt

x509_parse-Total :
    (point_is_valid : Bytes → Bytes → Bool) (der : Bytes) → Total (x509_parse point_is_valid der)
unfolding x509_parse
x509_parse-Total point_is_valid der = parsed der _ λ cert.
    guard (cert.tag != tag_sequence) bad_arg _ (
      next_tlv (reader_init cert.value) _ λ x. guard (x.0.tag != tag_sequence) bad_arg _ (
        next_tlv x.1 _ λ y. step (check_algorithm y.0) _ (check_algorithm-Total y.0) λ _.
          next_tlv y.1 _ λ z.
            step (signature_value z.0) _ (signature_value-Total z.0)
              λ sig. parse_tbs-Total point_is_valid x.0 _ sig.0 sig.1))

-- Whatever the check of a point answers, the parser returns a certificate or an error on every
-- buffer: its loops end within their fuel, and no byte outside the buffer is read.
x509_parse-returns :
    (point_is_valid : Bytes → Bytes → Bool) (der : Bytes) → x509_parse point_is_valid der ≢ fault
x509_parse-returns point_is_valid der =
    total_returns (x509_parse point_is_valid der) (x509_parse-Total point_is_valid der)
  where
    total_returns : (m : Result Cert) → Total m → m ≢ fault
    total_returns (ok c) h same = absurd (ground (arith, same))
    total_returns (err e) h same = absurd (ground (arith, same))
    total_returns fault h same = h
