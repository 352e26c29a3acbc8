-- ===== src/X509/Returns.antt =====
-- That `nd_x509_parse` returns: its loops end, and every read is inside the certificate.
use nano_dtls.Base.{
  ℕ, zero, suc, ◌+◌, ◌≤◌, ◌<◌, ◌≡◌, refl, sym, arith, Bool, true, false, ◌==◌, ltb, bit_and,
  if◌then◌else◌,
}
use nano_dtls.Base.{
  Bytes, length, drop, byte_at, byte_at_in, u64, Result, ok, err, fault, ◌>>=◌, leb, guard-all,
  truncated, bad_length, unsupported,
}
use mathlib.Core.Path.{subst}
use nano_dtls.Asn1.{Tlv, TlvReader, length_bytes, long_length, read_length, parse_tlv, reader_next}

-- An outcome with a property of its value, and no fault.
abbrev pub Returns : {A : Type 0} → (A → Type 0) → Result A → Type 0
Returns P (ok a) = P a
Returns P (err e) = Unit
Returns P fault = ⊥

pub bind-Returns :
    {A B : Type 0} (P : A → Type 0) (Q : B → Type 0) (m : Result A) (f : A → Result B)
    → Returns P m
    → ((a : A) → P a → Returns Q (f a))
    → Returns Q (m >>= f)
bind-Returns P Q (ok a) f h next = next a h
bind-Returns P Q (err e) f h next = tt
bind-Returns P Q fault f h next = h

-- The reader was not at the end, and goes forward in its buffer.
abbrev pub Forward : TlvReader → Tlv × TlvReader → Type 0
Forward r (tlv, s) = (s.buf ≡ r.buf) × (r.pos < length r.buf) × (r.pos + 2 ≤ s.pos)

byte_at-Returns : (buf : Bytes) (i : ℕ) → i < length buf → Returns (λ _. Unit) (byte_at buf i)
byte_at-Returns buf i h = subst (Returns (λ _. Unit)) (sym (byte_at_in buf i h)) tt

length_bytes-Returns :
    (n : ℕ) (buf : Bytes) (pos v : ℕ)
    → pos + n ≤ length buf
    → Returns (λ _. Unit) (length_bytes n buf pos v)
unfolding length_bytes
length_bytes-Returns zero buf pos v h = tt
length_bytes-Returns (suc n) buf pos v h =
    bind-Returns (λ _. Unit) (λ _. Unit) (byte_at buf pos) _ (byte_at-Returns buf pos (omega arith))
      λ b _. length_bytes-Returns n buf (pos + 1) _ (omega arith)

abbrev Behind : ℕ × ℕ → Type 0
Behind (pos, v) = 2 ≤ pos

long_length-Returns : (buf : Bytes) (n : ℕ) → Returns Behind (long_length buf n)
unfolding long_length
long_length-Returns buf n = guard-all (Returns Behind) (n == 0) unsupported _ tt λ _.
    guard-all (Returns Behind) (ltb 8 n) bad_length _ tt λ _.
      guard-all (Returns Behind) (ltb (length buf) (2 + n)) truncated _ tt λ inside.
        bind-Returns (λ _. Unit) Behind (length_bytes n buf 2 0) _
          (length_bytes-Returns n buf 2 0 (ground (arith, inside))) λ v _. omega arith

read_length-Returns : (buf : Bytes) (len0 : ℕ) → Returns Behind (read_length buf len0)
read_length-Returns buf len0 = split (bit_and len0 0x80 == 0)
  where
    split :
        (b : Bool)
        → Returns Behind (if b then ok (2, len0) else long_length buf (bit_and len0 0x7f))
    split true = omega arith
    split false = long_length-Returns buf (bit_and len0 0x7f)

pub parse_tlv-Returns : (buf : Bytes) → Returns (λ t. 2 ≤ t.header_len) (parse_tlv buf)
unfolding parse_tlv
parse_tlv-Returns buf =
    guard-all (Returns (λ t. 2 ≤ t.header_len)) (ltb (length buf) 2) truncated _ tt λ long.
      bind-Returns (λ _. Unit) (λ t. 2 ≤ t.header_len) (byte_at buf 0) _
        (byte_at-Returns buf 0 (ground (arith, long)))
        λ tag _.
          guard-all (Returns (λ t. 2 ≤ t.header_len)) (bit_and tag 0x1f == 0x1f) unsupported _ tt
            λ _.
              bind-Returns (λ _. Unit) (λ t. 2 ≤ t.header_len) (byte_at buf 1) _
                (byte_at-Returns buf 1 (ground (arith, long)))
                λ len0 _.
                  bind-Returns Behind (λ t. 2 ≤ t.header_len) (read_length buf len0) _
                    (read_length-Returns buf len0)
                    λ (pos, v) far.
                      guard-all (Returns (λ t. 2 ≤ t.header_len)) (ltb (u64 (pos + v)) pos)
                        bad_length _ tt
                        λ _.
                          guard-all (Returns (λ t. 2 ≤ t.header_len))
                            (ltb (length buf) (u64 (pos + v))) bad_length _ tt λ _. far

pub reader_next-Returns : (r : TlvReader) → Returns (Forward r) (reader_next r)
unfolding reader_next
reader_next-Returns r =
    guard-all (Returns (Forward r)) (leb (length r.buf) r.pos) truncated _ tt λ inside.
      bind-Returns (λ t. 2 ≤ t.header_len) (Forward r) (parse_tlv (drop r.pos r.buf)) _
        (parse_tlv-Returns (drop r.pos r.buf)) λ t far. (refl, ground (arith, inside), omega arith)
