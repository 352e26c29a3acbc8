-- ===== src/Hkdf.antt =====
-- HKDF over HMAC-SHA-256 and the labels of TLS 1.3, src/crypto/hkdf.c. Labels are the bytes of their
-- C strings.
pub mod Stream
pub mod Label
mod Tests
use nano_dtls.Base.{ℕ, zero, suc, ◌+◌, ◌-◌, ◌*◌, min, [], ◌∷◌, ◌++◌, ◌||◌, ◌==◌, ltb, if◌then◌else◌}
use nano_dtls.Base.{Bytes, length, take, replicate, u8, ◌>>>◌}
use nano_dtls.Base.{Result, ok, ◌>>=◌, ◌>>◌, fail_if, bad_arg}
use nano_dtls.Hmac.{hmac_sha256}

-- `ND_HASH_LEN`
abbrev pub hash_len : ℕ
hash_len = 32

abbrev pub info_max : ℕ
info_max = 200

abbrev pub label_max : ℕ
label_max = 64

abbrev pub context_max : ℕ
context_max = 64

-- A salt that is NULL is the empty one.
unfoldable pub extract : Bytes → Bytes → Result Bytes
extract salt ikm = ok (hmac_sha256 (if length salt == 0 then replicate hash_len 0 else salt) ikm)

-- The loop of `nd_hkdf_expand` on fuel, with what it writes to `out` from `generated` on; `t` holds
-- `t_len` bytes. A call makes at most 255 rounds.
unfoldable pub expand_loop : ℕ → Bytes → Bytes → ℕ → Bytes → ℕ → ℕ → Bytes
expand_loop zero prk info out_len t generated counter = []
expand_loop (suc fuel) prk info out_len t generated counter =
    let t' = hmac_sha256 prk (t ++ (info ++ counter ∷ [])) in
    let n = min (out_len - generated) hash_len in
    let rest = expand_loop fuel prk info out_len t' (generated + n) (u8 (counter + 1)) in
    if ltb generated out_len then take n t' ++ rest else []

unfoldable pub expand : Bytes → Bytes → ℕ → Result Bytes
expand prk info out_len = do
  fail_if (ltb (255 * hash_len) out_len) bad_arg
  fail_if (ltb info_max (length info)) bad_arg
  ok (expand_loop 255 prk info out_len [] 0 1)

-- `hkdf_label[0 .. off)`
abbrev pub hkdf_label : Bytes → Bytes → Bytes → ℕ → Bytes
hkdf_label label_prefix label context out_len =
    u8 (out_len >>> 8)
    ∷ u8 out_len
    ∷ u8 (length label_prefix + length label)
    ∷ (label_prefix ++ (label ++ u8 (length context) ∷ context))

unfoldable pub expand_label : Bytes → Bytes → Bytes → Bytes → ℕ → Result Bytes
expand_label secret label_prefix label context out_len = do
  let full_label_len = length label_prefix + length label
  fail_if (ltb label_max full_label_len || ltb context_max (length context)) bad_arg
  fail_if (ltb 0xffff out_len) bad_arg
  expand secret (hkdf_label label_prefix label context out_len) out_len

unfoldable pub derive_secret : Bytes → Bytes → Bytes → Bytes → Result Bytes
derive_secret secret label_prefix label transcript_hash =
    expand_label secret label_prefix label transcript_hash hash_len
