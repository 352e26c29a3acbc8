-- ===== src/Messages.antt =====
-- The EncryptedExtensions, Certificate and CertificateVerify messages of src/handshake/messages.c. Pointers are valid,
-- so the tests for NULL fall away; what a parser leaves in its outputs when it returns an error is
-- not modelled. The certificates of `nd_certificate_msg` are a list, `cert_count` its length; a view
-- into the message is given by the bytes it shows.
mod Tests
pub mod Certificate
pub mod Sent
pub mod Verify
pub mod Returns
use nano_dtls.Base.{
  ℕ, zero, suc, ◌+◌, Bool, true, false, List, [], ◌∷◌, ◌++◌, ltb, ◌==◌, ◌||◌, if◌then◌else◌,
}
use nano_dtls.Base.{
  Bytes, length, not, Result, ok, err, fault, fail_if, truncated, bad_length, bad_arg, unsupported,
}
use nano_dtls.Wire.{
  Writer, w_init, w_bytes, w_u8, w_u16, sized_u16, sized_u24, finish, ◌>>>=◌, Reader, Parser, ◌>>=◌,
  ◌>>◌, pure, lift, refuse, at_end, run, r_bytes, r_skip, r_u8, r_u16, r_u24,
}

-- `nd_encrypted_extensions_serialize`
pub encrypted_extensions_serialize : ℕ → Result Bytes
encrypted_extensions_serialize out_cap = if ltb out_cap 2 then err bad_length else ok (0 ∷ 0 ∷ [])

-- `nd_encrypted_extensions_parse`
unfoldable pub encrypted_extensions_parse : Bytes → Result (Unit {0})
encrypted_extensions_parse buf = run buf do
  ext_len ← r_u16 truncated
  r_skip bad_length ext_len
  end ← at_end
  refuse (not end) bad_length
  pure tt

abbrev pub max_certs : ℕ
max_certs = 4

-- One round of the loop of `nd_certificate_serialize`.
abbrev pub entry : Bytes → Writer → Writer
entry cert = sized_u24 (w_bytes cert) >>>= sized_u16 (λ w. w)

abbrev pub entries : List Bytes → Writer → Writer
entries [] w = w
entries (cert ∷ certs) w = entries certs (entry cert w)

-- The two tests at the start of `nd_certificate_serialize` and its body.
unfoldable pub certificate_serialize : List Bytes → ℕ → Result Bytes
certificate_serialize certs out_cap =
    if length certs == 0 || ltb max_certs (length certs)
    then err bad_arg
    else finish bad_length ((w_u8 0 >>>= sized_u24 (entries certs)) (w_init out_cap))

-- The loop of `nd_certificate_parse`, with the certificates found before.
abbrev pub parse_entries : ℕ → List Bytes → Parser (List Bytes)
parse_entries zero found r = fault
parse_entries (suc fuel) found r =
    let entry = (do
      refuse (not (ltb (length found) max_certs)) unsupported
      cert_len ← r_u24 truncated
      cert ← r_bytes bad_length cert_len
      ext_len ← r_u16 truncated
      r_skip bad_length ext_len
      parse_entries fuel (found ++ cert ∷ [])) in
    if ltb r.pos (length r.buf) then entry r else ok (found, r)

-- `nd_certificate_parse`
unfoldable pub certificate_parse : Bytes → Result (List Bytes)
certificate_parse buf = run buf do
  ctx_len ← r_u8 truncated
  r_skip bad_length ctx_len
  list_len ← r_u24 truncated
  list_data ← r_bytes bad_length list_len
  certs ← lift (run list_data (parse_entries (suc (length list_data)) []))
  refuse (length certs == 0) bad_arg
  pure certs

-- `nd_certificate_verify_msg`
pub record CertificateVerify : Type 0 where
  pub algorithm : ℕ
  pub signature : Bytes

-- `nd_certificate_verify_parse`
unfoldable pub certificate_verify_parse : Bytes → Result CertificateVerify
certificate_verify_parse buf = run buf do
  algorithm ← r_u16 truncated
  sig_len ← r_u16 truncated
  sig ← r_bytes bad_length sig_len
  end ← at_end
  refuse (not end) bad_length
  pure (record { algorithm = algorithm; signature = sig })
