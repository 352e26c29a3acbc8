-- ===== src/Hmac/Tests.antt =====
-- Test case 2 of RFC 4231.
use nano_dtls.Base.{◌≡◌, refl, arith, [], ◌∷◌, take, Bytes}
use nano_dtls.Sha256.{sha256, final, update, update_loop, fill_block, zero_pad}
use nano_dtls.Sha256.Compress.{compress}
use nano_dtls.Hmac.{hmac_sha256}
use nano_dtls.Hmac.Rfc2104.{rfc2104, hmac_sha256-rfc2104}

abbrev jefe : Bytes
jefe = b'J' ∷ b'e' ∷ b'f' ∷ b'e' ∷ []

abbrev question : Bytes
question =
    b'w' ∷ b'h' ∷ b'a' ∷ b't' ∷ b' ' ∷ b'd' ∷ b'o' ∷ b' ' ∷ b'y' ∷ b'a' ∷ b' ' ∷ b'w' ∷ b'a' ∷ b'n'
    ∷ b't' ∷ b' ' ∷ b'f' ∷ b'o' ∷ b'r' ∷ b' ' ∷ b'n' ∷ b'o' ∷ b't' ∷ b'h' ∷ b'i' ∷ b'n' ∷ b'g'
    ∷ b'?' ∷ []

hmac_runs :
    take 8 (hmac_sha256 jefe question) ≡ 0x5b ∷ 0xdc ∷ 0xc1 ∷ 0x46 ∷ 0xbf ∷ 0x60 ∷ 0x75 ∷ 0x4e ∷ []
unfolding hmac_sha256 sha256 final update update_loop fill_block zero_pad compress
hmac_runs = refl

hmac_sha256-rfc2104_example : hmac_sha256 jefe question ≡ rfc2104 jefe question
hmac_sha256-rfc2104_example = hmac_sha256-rfc2104 jefe question (omega arith)
