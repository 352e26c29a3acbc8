-- ===== src/X509/Chain.antt =====
-- `nd_x509_verify_signature` and `nd_x509_verify_chain` of src/x509/x509.c. The P-256 verification is
-- an argument.
use nano_dtls.Base.{
  ℕ, ◌≤◌, ◌<◌, ◌≡◌, ◌↔◌, refl, arith, ap, sym, ◌∙◌, Bool, true, false, not, ◌&&◌, ◌||◌, ◌==◌, ltb,
  List, [], ◌∷◌, Bytes, length,
}
use nano_dtls.Base.{Status, bind-ok, bind-returns, Result, ok, ◌>>◌, fail_if, bad_arg, auth_failed}
use nano_dtls.Sha256.{sha256}
use nano_dtls.Messages.Verify.{Verify}
use nano_dtls.X509.{Cert, der_eq}

unfoldable pub verify_signature : Verify → Cert → Bytes → Bytes → Result (Unit {0})
verify_signature ecdsa_verify cert issuer_qx issuer_qy =
    ecdsa_verify issuer_qx issuer_qy (sha256 cert.tbs_der) cert.sig_r cert.sig_s

-- A certificate's time is not now.
abbrev pub expired : Cert → ℕ → Bool
expired cert at_time = ltb at_time cert.not_before || ltb cert.not_after at_time

-- The loop over the times.
abbrev pub check_times : List Cert → ℕ → Result (Unit {0})
check_times [] at_time = ok tt
check_times (cert ∷ chain) at_time = do
  fail_if (expired cert at_time) auth_failed
  check_times chain at_time

-- The certificate that must have signed: the next one, and the anchor behind the last.
abbrev pub issuer_of : List Cert → Cert → Cert
issuer_of [] trust_anchor = trust_anchor
issuer_of (issuer ∷ rest) trust_anchor = issuer

-- The loop over the signatures.
abbrev pub check_links : Verify → List Cert → Cert → Result (Unit {0})
check_links ecdsa_verify [] trust_anchor = ok tt
check_links ecdsa_verify (subject ∷ chain) trust_anchor =
    let issuer = issuer_of chain trust_anchor in
    do
      fail_if (not (der_eq subject.issuer_der issuer.subject_der)) auth_failed
      fail_if (not issuer.is_ca) auth_failed
      verify_signature ecdsa_verify subject issuer.pubkey_qx issuer.pubkey_qy
      check_links ecdsa_verify chain trust_anchor

-- `nd_x509_verify_chain`
unfoldable pub verify_chain : Verify → List Cert → Cert → ℕ → Result (Unit {0})
verify_chain ecdsa_verify chain trust_anchor at_time = do
  fail_if (length chain == 0) bad_arg
  fail_if (expired trust_anchor at_time) auth_failed
  check_times chain at_time
  check_links ecdsa_verify chain trust_anchor

-- Every signer's certificate says that it is a CA's, is the one that is named, and signed.
abbrev pub Linked : Verify → List Cert → Cert → Type 0
Linked ecdsa_verify [] trust_anchor = Unit
Linked ecdsa_verify (subject ∷ chain) trust_anchor =
    let issuer = issuer_of chain trust_anchor in
    (subject.issuer_der ≡ issuer.subject_der)
    × (issuer.is_ca ≡ true)
    × (ecdsa_verify issuer.pubkey_qx issuer.pubkey_qy (sha256 subject.tbs_der) subject.sig_r
          subject.sig_s
        ≡ ok tt)
    × Linked ecdsa_verify chain trust_anchor

abbrev pub Valid : Cert → ℕ → Type 0
Valid cert at_time = (cert.not_before ≤ at_time) × (at_time ≤ cert.not_after)

abbrev pub AllValid : List Cert → ℕ → Type 0
AllValid [] at_time = Unit
AllValid (cert ∷ chain) at_time = Valid cert at_time × AllValid chain at_time

der_eq_refl : (xs : Bytes) → der_eq xs xs ≡ true
der_eq_refl [] = refl
der_eq_refl (x ∷ xs) = ground (arith, der_eq_refl xs)

and-true : (a b : Bool) → (a && b) ≡ true → (a ≡ true) × (b ≡ true)
and-true true b h = (refl, h)
and-true false b h = absurd (ground (arith, h))

der_eq_same : (xs ys : Bytes) → der_eq xs ys ≡ true → xs ≡ ys
der_eq_same [] [] h = refl
der_eq_same [] (y ∷ ys) h = absurd (ground (arith, h))
der_eq_same (x ∷ xs) [] h = absurd (ground (arith, h))
der_eq_same (x ∷ xs) (y ∷ ys) h =
    let (first, rest) = and-true (x == y) (der_eq xs ys) h in
    let same : x ≡ y = ground (arith, first) in λ i. same i ∷ der_eq_same xs ys rest i

passed : (b : Bool) (e : Status) (a : Unit {0}) → fail_if b e ≡ ok a → b ≡ false
passed true e a h = absurd (ground (arith, h))
passed false e a h = refl

in_time : (cert : Cert) (at_time : ℕ) → expired cert at_time ≡ false → Valid cert at_time
in_time cert at_time h = ground (arith, h)

not_expired : (cert : Cert) (at_time : ℕ) → Valid cert at_time → expired cert at_time ≡ false
not_expired cert at_time (late, early) = ground arith

check_times_iff :
    (chain : List Cert) (at_time : ℕ) → (check_times chain at_time ≡ ok tt) ↔ AllValid chain at_time
check_times_iff [] at_time = (λ _. tt, λ _. refl)
check_times_iff (cert ∷ chain) at_time = (
  λ h.
      let (a, e, rest) =
        bind-ok (fail_if (expired cert at_time) auth_failed) (λ _. check_times chain at_time) tt
          h in
      (
        in_time cert at_time (passed (expired cert at_time) auth_failed a e),
        (check_times_iff chain at_time).0 rest,
      ),
  λ (now, rest).
      bind-returns _ (ap (λ b. fail_if b auth_failed) (not_expired cert at_time now))
        ((check_times_iff chain at_time).1 rest),
)

confirmed : (b : Bool) → not b ≡ false → b ≡ true
confirmed true h = refl
confirmed false h = absurd (ground (arith, h))

check_links_iff :
    (ecdsa_verify : Verify) (chain : List Cert) (trust_anchor : Cert)
    → (check_links ecdsa_verify chain trust_anchor ≡ ok tt) ↔ Linked ecdsa_verify chain trust_anchor
unfolding verify_signature
check_links_iff ecdsa_verify [] trust_anchor = (λ _. tt, λ _. refl)
check_links_iff ecdsa_verify (subject ∷ chain) trust_anchor =
    let issuer = issuer_of chain trust_anchor in
    let named = der_eq subject.issuer_der issuer.subject_der in
    let after = check_links_iff ecdsa_verify chain trust_anchor in
    (
      λ h.
          let (a, e, h1) = bind-ok (fail_if (not named) auth_failed) _ tt h in
          let (b, f, h2) = bind-ok (fail_if (not issuer.is_ca) auth_failed) _ tt h1 in
          let (c, g, h3) =
            bind-ok (verify_signature ecdsa_verify subject issuer.pubkey_qx issuer.pubkey_qy) _ tt
              h2 in
          (
            der_eq_same subject.issuer_der issuer.subject_der
                (confirmed named (passed (not named) auth_failed a e)),
            confirmed issuer.is_ca (passed (not issuer.is_ca) auth_failed b f),
            g,
            after.0 h3,
          ),
      λ (name, ca, signed, rest).
          let same : named ≡ true =
            ap (λ t. der_eq subject.issuer_der t) (sym name) ∙ der_eq_refl subject.issuer_der in
          bind-returns _ (ap (λ b. fail_if (not b) auth_failed) same) (
            bind-returns _ (ap (λ b. fail_if (not b) auth_failed) ca)
              (bind-returns _ signed (after.1 rest))),
    )

-- The check accepts a chain exactly if it is not empty, the time lies in the validity of the anchor
-- and of every certificate, and each certificate names the next one, or the anchor behind the
-- last, as its issuer, which is a CA's, and whose key verifies its signature.
pub verify_chain_iff :
    (ecdsa_verify : Verify) (chain : List Cert) (trust_anchor : Cert) (at_time : ℕ)
    → (verify_chain ecdsa_verify chain trust_anchor at_time ≡ ok tt) ↔ (
        (0 < length chain)
        × Valid trust_anchor at_time
        × AllValid chain at_time
        × Linked ecdsa_verify chain trust_anchor)
unfolding verify_chain
verify_chain_iff ecdsa_verify chain trust_anchor at_time = (
  λ h.
      let (a, e, h1) = bind-ok (fail_if (length chain == 0) bad_arg) _ tt h in
      let (b, f, h2) = bind-ok (fail_if (expired trust_anchor at_time) auth_failed) _ tt h1 in
      let (c, g, h3) = bind-ok (check_times chain at_time) _ tt h2 in
      let filled : (length chain == 0) ≡ false = passed (length chain == 0) bad_arg a e in
      (
        ground (arith, filled),
        in_time trust_anchor at_time (passed (expired trust_anchor at_time) auth_failed b f),
        (check_times_iff chain at_time).0 g,
        (check_links_iff ecdsa_verify chain trust_anchor).0 h3,
      ),
  λ (some, now, valid, linked).
      let filled : (length chain == 0) ≡ false = ground (arith, some) in
      bind-returns _ (ap (λ b. fail_if b bad_arg) filled) (
        bind-returns _ (ap (λ b. fail_if b auth_failed) (not_expired trust_anchor at_time now)) (
          bind-returns _ ((check_times_iff chain at_time).1 valid)
            ((check_links_iff ecdsa_verify chain trust_anchor).1 linked))),
)
