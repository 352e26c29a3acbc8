-- ===== src/Hmac/Nested.antt =====
-- The two hashes of the code, each of its pieces together, and the sizes of their results.
use nano_dtls.Base.{ℕ, ◌≡◌, refl, sym, ap, ◌∙◌, arith, [], ◌∷◌, ◌++◌}
use nano_dtls.Base.{Bytes, length, IsBytes}
use mathlib.Core.List.{append-nil}
use nano_dtls.Sha256.{Ctx, sha256, init, update, final}
use nano_dtls.Sha256.Padding.{final-feed, sha256-standard, standard}
use nano_dtls.Hmac.{key_block, xor_byte, hmac_sha256}

abbrev pub digest_len : ℕ
digest_len = 32

pub length-final : (ctx : Ctx) → length (final ctx) ≡ digest_len
unfolding final
length-final ctx = refl

pub final-IsBytes : (ctx : Ctx) → IsBytes (final ctx)
unfolding final
final-IsBytes ctx = omega arith

two_pieces : (a b : Bytes) → final (update (update init a) b) ≡ sha256 (a ++ b)
two_pieces a b =
    final-feed (a ∷ b ∷ [])
    ∙ ap (λ t. standard (a ++ t)) (append-nil b)
    ∙ sym (sha256-standard (a ++ b))

pub hmac_sha256-pieces :
    (key bytes : Bytes)
    → hmac_sha256 key bytes
      ≡ sha256 (xor_byte 0x5c (key_block key) ++ sha256 (xor_byte 0x36 (key_block key) ++ bytes))
unfolding hmac_sha256
hmac_sha256-pieces key bytes =
    let outer : Bytes = xor_byte 0x5c (key_block key) in
    ap (λ t. final (update (update init outer) t))
      (two_pieces (xor_byte 0x36 (key_block key)) bytes)
    ∙ two_pieces outer (sha256 (xor_byte 0x36 (key_block key) ++ bytes))

pub length-hmac_sha256 : (key bytes : Bytes) → length (hmac_sha256 key bytes) ≡ digest_len
unfolding hmac_sha256
length-hmac_sha256 key bytes =
    let opad : Bytes = xor_byte 0x5c (key_block key) in
    let inner : Bytes = final (update (update init (xor_byte 0x36 (key_block key))) bytes) in
    length-final (update (update init opad) inner)

pub hmac_sha256-IsBytes : (key bytes : Bytes) → IsBytes (hmac_sha256 key bytes)
unfolding hmac_sha256
hmac_sha256-IsBytes key bytes =
    let opad : Bytes = xor_byte 0x5c (key_block key) in
    let inner : Bytes = final (update (update init (xor_byte 0x36 (key_block key))) bytes) in
    final-IsBytes (update (update init opad) inner)
