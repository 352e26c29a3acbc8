-- ===== src/Hmac.antt =====
-- HMAC-SHA-256, src/crypto/hmac_sha256.c.
pub mod Nested
pub mod Rfc2104
mod Tests
use nano_dtls.Base.{ℕ, ◌-◌, bit_xor, [], ◌∷◌, ◌++◌, ltb, if◌then◌else◌}
use nano_dtls.Base.{Bytes, length, replicate, u8}
use nano_dtls.Sha256.{block_len, init, update, final, sha256}

-- `key_block`: the key, or its hash where it is too long, and zeros.
abbrev pub key_block : Bytes → Bytes
key_block key =
    let k = if ltb block_len (length key) then sha256 key else key in
    k ++ replicate (block_len - length k) 0

-- A byte array XORed with one byte.
abbrev pub xor_byte : ℕ → Bytes → Bytes
xor_byte c [] = []
xor_byte c (x ∷ xs) = u8 (bit_xor x c) ∷ xor_byte c xs

unfoldable pub hmac_sha256 : Bytes → Bytes → Bytes
hmac_sha256 key bytes =
    let ipad = xor_byte 0x36 (key_block key) in
    let opad = xor_byte 0x5c (key_block key) in
    let inner = final (update (update init ipad) bytes) in final (update (update init opad) inner)
