-- ===== src/KeySchedule/Finished.antt =====
-- A Finished message is accepted exactly if it is the one that is computed.
use nano_dtls.Base.{
  ℕ, ◌≤◌, ◌≡◌, refl, sym, ap, ◌∙◌, arith, ◌↔◌, ◌⊎◌, inl, inr, Bool-cases, [], ◌!=◌, Bytes, IsBytes,
  length, diff_bytes, diff_bytes_total, diff_bytes_same, diff_bytes-zero, ok, err, auth_failed,
  bind-returns, ok-injective, fail_if,
}
use nano_dtls.Hmac.{hmac_sha256}
use nano_dtls.Hmac.Nested.{length-hmac_sha256, hmac_sha256-IsBytes}
use nano_dtls.Hkdf.{hash_len, hkdf_label}
use nano_dtls.Hkdf.Stream.{output}
use nano_dtls.Hkdf.Label.{expand_label-ok}
use nano_dtls.KeySchedule.{finished_label, finished_compute, finished_verify}

-- What the code computes, for a prefix of at most 52 bytes.
abbrev pub verify_data : Bytes → Bytes → Bytes → Bytes
verify_data prefix base_key hash =
    hmac_sha256 (output base_key (hkdf_label prefix finished_label [] hash_len) hash_len) hash

pub finished_compute-ok :
    (prefix base_key hash : Bytes)
    → length prefix ≤ 52
    → finished_compute prefix base_key hash ≡ ok (verify_data prefix base_key hash)
unfolding finished_compute
finished_compute-ok prefix base_key hash short =
    bind-returns _
      (expand_label-ok base_key prefix finished_label [] hash_len
        (omega arith, omega arith, omega arith))
      refl

-- The comparison is zero exactly for what was computed.
compare_iff :
    (expected received : Bytes) (d : ℕ)
    → IsBytes expected
    → IsBytes received
    → length expected ≡ length received
    → diff_bytes 0 expected received ≡ ok d
    → (d ≡ 0) ↔ (expected ≡ received)
compare_iff expected received d he hr size compared = (
  λ e. (diff_bytes-zero 0 expected received (omega arith) he hr size (compared ∙ ap ok e)).1,
  λ same.
      ok-injective d 0
        (sym compared ∙ ap (λ t. diff_bytes 0 t received) same ∙ diff_bytes_same received),
)

-- A Finished message of 32 bytes is accepted exactly if it is, byte for byte, the one that
-- `nd_finished_compute` gives; any other is `ND_ERR_AUTH_FAILED`.
pub finished_verify_iff :
    (prefix base_key hash received : Bytes)
    → length prefix ≤ 52
    → IsBytes received
    → length received ≡ hash_len
    → ((finished_verify prefix base_key hash received ≡ ok tt)
        ↔ (finished_compute prefix base_key hash ≡ ok received))
      × ((finished_verify prefix base_key hash received ≡ ok tt)
          ⊎ (finished_verify prefix base_key hash received ≡ err auth_failed))
unfolding finished_verify
finished_verify_iff prefix base_key hash received short bytes sized =
    let expected : Bytes = verify_data prefix base_key hash in
    let key : Bytes = output base_key (hkdf_label prefix finished_label [] hash_len) hash_len in
    let computed : finished_compute prefix base_key hash ≡ ok expected =
      finished_compute-ok prefix base_key hash short in
    let size : length expected ≡ length received = length-hmac_sha256 key hash ∙ sym sized in
    let (d, compared) = diff_bytes_total 0 expected received size in
    let run : finished_verify prefix base_key hash received ≡ fail_if (d != 0) auth_failed =
      bind-returns _ computed (bind-returns _ compared refl) in
    let same : (d ≡ 0) ↔ (expected ≡ received) =
      compare_iff expected received d (hmac_sha256-IsBytes key hash) bytes size compared in
    elim (Bool-cases (d != 0)) [
      | inl differs ↦
          let failed : finished_verify prefix base_key hash received ≡ err auth_failed =
            run ∙ ap (λ b. fail_if b auth_failed) differs in
          (
            (
              λ passed. absurd (ground (arith, failed, passed)),
              λ e. absurd (
                  ground
                    (arith, differs, same.1 (ok-injective expected received (sym computed ∙ e)))),
            ),
            inr failed,
          )
      | inr agrees ↦
          let passed : finished_verify prefix base_key hash received ≡ ok tt =
            run ∙ ap (λ b. fail_if b auth_failed) agrees in
          ((λ _. computed ∙ ap ok (same.0 (ground (arith, agrees))), λ _. passed), inl passed)
    ]
