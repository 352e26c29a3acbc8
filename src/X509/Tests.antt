-- ===== src/X509/Tests.antt =====
-- A leaf that the anchor signed, and a time, at concrete values.
use nano_dtls.Base.{
  ◌<◌, ◌≡◌, ◌↔◌, refl, true, false, [], ◌∷◌, length, get_or, ◌==◌, not, fail_if, auth_failed, ok,
}
use nano_dtls.Messages.Verify.{Verify}
use nano_dtls.X509.{Cert, parse_time, tag_utc_time}
use nano_dtls.X509.Chain.{Valid, AllValid, Linked, verify_chain, verify_chain_iff}

-- "260804052052Z"
parse_utc :
    parse_time (record {
      tag = tag_utc_time;
      constructed = false;
      header_len = 2;
      value = 50 ∷ 54 ∷ 48 ∷ 56 ∷ 48 ∷ 52 ∷ 48 ∷ 53 ∷ 50 ∷ 48 ∷ 53 ∷ 50 ∷ 90 ∷ [];
    })
    ≡ ok 20260804052052
unfolding parse_time
parse_utc = refl

abbrev anchor : Cert
anchor = record {
  tbs_der = 1 ∷ [];
  issuer_der = 8 ∷ [];
  subject_der = 9 ∷ [];
  not_before = 10;
  not_after = 20;
  pubkey_qx = [];
  pubkey_qy = [];
  is_ca = true;
  sig_r = 5 ∷ [];
  sig_s = 5 ∷ [];
}

abbrev leaf : Cert
leaf = record anchor { issuer_der = 9 ∷ []; subject_der = 7 ∷ []; is_ca = false }

abbrev same_first : Verify
same_first qx qy hash r s = fail_if (not (get_or r 0 0 == get_or s 0 0)) auth_failed

verify_chain_iff_example : (verify_chain same_first (leaf ∷ []) anchor 15 ≡ ok tt) ↔ (
    (0 < length (leaf ∷ []))
    × Valid anchor 15
    × AllValid (leaf ∷ []) 15
    × Linked same_first (leaf ∷ []) anchor)
verify_chain_iff_example = verify_chain_iff same_first (leaf ∷ []) anchor 15
