-- ===== src/Sha256.antt =====
-- SHA-256, src/crypto/sha256.c. A context is updated by returning the new one; `buf` holds the
-- `buf_len` bytes of the array that are in use.
pub mod Compress
pub mod Stream
pub mod Padding
pub mod Fips180
pub mod Conforms
mod Tests
use nano_dtls.Base.{ℕ, zero, suc, ◌+◌, ◌-◌, ◌*◌, min, [], ◌∷◌, ◌++◌, ◌==◌, ◌!=◌, if◌then◌else◌}
use nano_dtls.Base.{Bytes, length, take, drop, u8, u64, ◌>>>◌}
use Compress.{Words, compress}

abbrev pub block_len : ℕ
block_len = 64

-- `nd_sha256_ctx`
pub record Ctx : Type 0 where
  pub h : Words
  pub buf : Bytes
  pub total_len : ℕ

abbrev pub start : Words
start = record {
  a = 0x6a09e667;
  b = 0xbb67ae85;
  c = 0x3c6ef372;
  d = 0xa54ff53a;
  e = 0x510e527f;
  f = 0x9b05688c;
  g = 0x1f83d9ab;
  h = 0x5be0cd19;
}

abbrev pub init : Ctx
init = record { h = start; buf = []; total_len = 0 }

-- One round of the loop: `n` bytes go into the buffer, and a full buffer is compressed.
unfoldable pub fill_block : ℕ → Bytes → Ctx → Ctx
fill_block n bytes ctx =
    let full = ctx.buf ++ take n bytes in
    if length full == block_len
    then record ctx { h = compress ctx.h full; buf = [] }
    else record ctx { buf = full }

-- The loop, on fuel. A round takes at least one byte, so that the length of the data is enough.
unfoldable pub update_loop : ℕ → Bytes → Ctx → Ctx
update_loop fuel [] ctx = ctx
update_loop zero (x ∷ xs) ctx = ctx
update_loop (suc fuel) (x ∷ xs) ctx =
    let n = min (block_len - length ctx.buf) (length (x ∷ xs)) in
    update_loop fuel (drop n (x ∷ xs)) (fill_block n (x ∷ xs) ctx)

unfoldable pub update : Ctx → Bytes → Ctx
update ctx bytes =
    update_loop (length bytes) bytes (record ctx { total_len = u64 (ctx.total_len + length bytes) })

-- The loop of `nd_sha256_final` that appends zeros, on fuel: the buffer has 64 lengths.
unfoldable pub zero_pad : ℕ → Ctx → Ctx
zero_pad zero ctx = ctx
zero_pad (suc fuel) ctx =
    let rest = zero_pad fuel (update ctx (0 ∷ [])) in if length ctx.buf != 56 then rest else ctx

-- `len_bytes`, from byte `i` on with `left` bytes to go.
abbrev pub len_bytes : ℕ → ℕ → ℕ → Bytes
len_bytes zero i bit_len = []
len_bytes (suc left) i bit_len = u8 (bit_len >>> (56 - 8 * i)) ∷ len_bytes left (i + 1) bit_len

abbrev pub word_bytes : ℕ → Bytes
word_bytes x = u8 (x >>> 24) ∷ u8 (x >>> 16) ∷ u8 (x >>> 8) ∷ u8 x ∷ []

abbrev pub digest : Words → Bytes
digest h =
    word_bytes h.a
    ++ (word_bytes h.b
        ++ (word_bytes h.c
            ++ (word_bytes h.d
                ++ (word_bytes h.e ++ (word_bytes h.f ++ (word_bytes h.g ++ word_bytes h.h))))))

unfoldable pub final : Ctx → Bytes
final ctx =
    let bit_len = u64 (ctx.total_len * 8) in
    let padded = zero_pad 64 (update ctx (0x80 ∷ [])) in
    digest (update padded (len_bytes 8 0 bit_len)).h

unfoldable pub sha256 : Bytes → Bytes
sha256 bytes = final (update init bytes)
