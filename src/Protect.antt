-- ===== src/Protect.antt =====
-- Protection of records, src/record_protect.c, over an AEAD. `*p` and `*u` are updated by returning
-- the new state; an error stands for the state unchanged, since both functions write it last.
pub mod Nonce
pub mod Header
pub mod Opening
pub mod RoundTrip
pub mod Safety
mod Tests
use nano_dtls.Base.{
  ℕ, zero, suc, ◌+◌, ◌-◌, ◌*◌, Bool, ◌++◌, [], ◌∷◌, bit_and, bit_or, bit_xor, ltb, ◌==◌, ◌!=◌,
  if◌then◌else◌,
}
use nano_dtls.Base.{Bytes, byte_at, length, take, slice, replicate, write_at, u8, u16, u64, ◌>>>◌}
use nano_dtls.Base.{Result, ok, fault, ◌>>=◌, ◌>>◌, fail_if, bad_length, bad_arg, unsupported}
use nano_dtls.Record.Unified.{Parsed}
use nano_dtls.Record.Unified
use nano_dtls.Record.Reconstruct.{reconstruct_epoch, reconstruct_sequence_number}
use nano_dtls.Aead.{Aead, Sealed, tag_len, nonce_len}

-- `ND_RECORD_PROTECT_MAX_INNER`
abbrev pub max_inner : ℕ
max_inner = 2048

-- `ND_FIXED_SHAPE_HEADER_LEN`
abbrev pub header_len : ℕ
header_len = 5

-- `nd_record_protection`
pub record Protection : Type 0 where
  pub write_key : Bytes
  pub write_iv : Bytes
  pub next_send_sequence : ℕ
  pub epoch : ℕ

-- `nd_record_unprotection`
pub record Unprotection : Type 0 where
  pub read_key : Bytes
  pub read_iv : Bytes
  pub highest_seen_sequence : ℕ
  pub epoch : ℕ

abbrev pub protection_init : Bytes → Bytes → ℕ → Protection
protection_init key iv epoch = record {
  write_key = key;
  write_iv = iv;
  next_send_sequence = 0;
  epoch = epoch;
}

abbrev pub unprotection_init : Bytes → Bytes → ℕ → Unprotection
unprotection_init key iv epoch = record {
  read_key = key;
  read_iv = iv;
  highest_seen_sequence = 0;
  epoch = epoch;
}

-- The first loop of `build_nonce` from round `i` on, with `left` rounds to go.
abbrev pub put_sequence : ℕ → ℕ → ℕ → Bytes → Bytes
put_sequence zero i seq seq_bytes = seq_bytes
put_sequence (suc left) i seq seq_bytes =
    put_sequence left (i + 1) seq
      (write_at seq_bytes (nonce_len - 1 - i) (u8 (seq >>> (8 * i)) ∷ []))

-- Its second loop.
abbrev pub xor_bytes : Bytes → Bytes → Bytes
xor_bytes [] ys = []
xor_bytes (x ∷ xs) [] = []
xor_bytes (x ∷ xs) (y ∷ ys) = bit_xor x y ∷ xor_bytes xs ys

unfoldable pub build_nonce : Bytes → ℕ → Bytes
build_nonce iv seq = xor_bytes iv (put_sequence 8 0 seq (replicate nonce_len 0))

unfoldable pub write_fixed_shape_header : ℕ → ℕ → ℕ → Bytes
write_fixed_shape_header epoch_low2 seq16 len =
    u8 (bit_or (bit_or (bit_or 0x20 0x08) 0x04) (bit_and epoch_low2 0x03))
    ∷ u8 (seq16 >>> 8)
    ∷ u8 seq16
    ∷ u8 (len >>> 8)
    ∷ u8 len
    ∷ []

-- `inner[0 .. inner_len)`, a fault where the plaintext and the content type do not fit `inner`.
abbrev pub inner_plaintext : Bytes → ℕ → Result Bytes
inner_plaintext plaintext content_type =
    if ltb (length plaintext) max_inner then ok (plaintext ++ content_type ∷ []) else fault

-- `out_buf[0 .. *out_len)` and `*p`.
pub record Protected : Type 0 where
  pub out : Bytes
  pub state : Protection

module _ (aead : Aead) where
  unfoldable pub protect : Protection → ℕ → Bytes → ℕ → Result Protected
  protect p content_type plaintext out_cap = do
    fail_if (ltb max_inner (u64 (length plaintext + 1))) bad_length
    inner ← inner_plaintext plaintext content_type
    let inner_len = length plaintext + 1
    let ciphertext_len = inner_len + tag_len
    let total_len = header_len + ciphertext_len
    fail_if (ltb out_cap total_len) bad_length
    let header =
        write_fixed_shape_header (u16 (bit_and p.epoch 0x3))
          (u16 (bit_and p.next_send_sequence 0xffff)) (u16 ciphertext_len)
    let nonce = build_nonce p.write_iv p.next_send_sequence
    sealed ← aead.encrypt p.write_key nonce header inner
    ok (record {
      out = header ++ (sealed.ciphertext ++ sealed.tag);
      state = record p { next_send_sequence = u64 (p.next_send_sequence + 1) };
    })

-- The loop that strips the padding: the index behind the last byte that is not zero.
unfoldable pub content_end : Bytes → ℕ → Result ℕ
content_end inner zero = ok 0
content_end inner (suc i) = do
  x ← byte_at inner i
  let rest = content_end inner i
  if x == 0 then rest else ok (suc i)

-- `plaintext_out[0 .. *plaintext_len)`, `*out_content_type` and `*u`.
pub record Unprotected : Type 0 where
  pub plaintext : Bytes
  pub content_type : ℕ
  pub state : Unprotection

-- What follows the decryption.
unfoldable pub finish : Unprotection → ℕ → Bytes → ℕ → ℕ → Result Unprotected
finish u full_seq inner ciphertext_len plaintext_cap = do
  i ← content_end inner ciphertext_len
  fail_if (i == 0) bad_arg
  content_type ← byte_at inner (i - 1)
  let content_len = i - 1
  fail_if (ltb plaintext_cap content_len) bad_length
  ok (record {
    plaintext = take content_len inner;
    content_type = content_type;
    state = record u {
      highest_seen_sequence =
          if ltb u.highest_seen_sequence full_seq then full_seq else u.highest_seen_sequence;
    };
  })

-- `ciphertext` and `tag`, pointers into the payload.
abbrev pub sealed_at : Bytes → ℕ → ℕ → Sealed
sealed_at buf header_len ciphertext_len = record {
  ciphertext = slice buf header_len ciphertext_len;
  tag = slice buf (header_len + ciphertext_len) tag_len;
}

-- `inner`, which the decryption has filled, a fault where it is too small for that.
abbrev pub filled : Bytes → Result Bytes
filled bytes = if ltb max_inner (length bytes) then fault else ok bytes

module _ (aead : Aead) where
  -- What follows the parsing of the header.
  unfoldable pub open_record : Unprotection → Bytes → Parsed → ℕ → Result Unprotected
  open_record u buf parsed plaintext_cap = do
    let full_epoch = reconstruct_epoch u.epoch parsed.hdr.epoch_low2
    fail_if (full_epoch != u.epoch) unsupported
    let wire_bits = if parsed.hdr.seq_len_is_16bit then 16 else 8
    let full_seq =
        reconstruct_sequence_number u.highest_seen_sequence parsed.hdr.sequence_number wire_bits
    fail_if (ltb parsed.payload.len tag_len) bad_length
    let ciphertext_len = parsed.payload.len - tag_len
    fail_if (ltb max_inner ciphertext_len) bad_length
    let header_len = parsed.payload.offset
    let sealed = sealed_at buf header_len ciphertext_len
    let nonce = build_nonce u.read_iv full_seq
    decrypted ← aead.decrypt u.read_key nonce (take header_len buf) sealed
    inner ← filled decrypted
    finish u full_seq inner ciphertext_len plaintext_cap

  unfoldable pub unprotect : Unprotection → Bytes → ℕ → Result Unprotected
  unprotect u buf plaintext_cap = do
    parsed ← Unified.parse buf 0
    open_record u buf parsed plaintext_cap
