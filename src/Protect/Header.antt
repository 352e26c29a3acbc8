-- ===== src/Protect/Header.antt =====
-- The header that `write_fixed_shape_header` writes.
use nano_dtls.Base.{
  ℕ, ◌+◌, ◌^◌, ◌≤◌, ◌<◌, ◌≡◌, refl, arith, true, false, ◌++◌, [], Bytes, length, ok, inl, inr,
}
use nano_dtls.Record.Unified.{UnifiedHdr, flags, header_bytes}
use nano_dtls.Record.Unified
use nano_dtls.Record.Unified.RoundTrip.{serialize-Accepts}
use nano_dtls.Protect.{header_len, write_fixed_shape_header}

-- No connection ID, a sequence number of two bytes, a length.
abbrev pub fixed_shape : ℕ → ℕ → UnifiedHdr Bytes
fixed_shape epoch_low2 seq16 = record {
  cid_present = false;
  seq_len_is_16bit = true;
  length_present = true;
  epoch_low2 = epoch_low2;
  cid = [];
  sequence_number = seq16;
  length = 0;
}

-- The header is byte for byte that of `nd_unified_serialize` for the same fields, whatever the
-- payload of less than 65536 bytes.
pub serialize-write_fixed_shape_header :
    (epoch_low2 seq16 : ℕ) (payload : Bytes) (out_cap : ℕ)
    → length payload < 2 ^ 16
    → header_len + length payload ≤ out_cap
    → Unified.serialize (fixed_shape epoch_low2 seq16) payload out_cap
      ≡ ok (write_fixed_shape_header epoch_low2 seq16 (length payload) ++ payload)
unfolding write_fixed_shape_header header_bytes flags
serialize-write_fixed_shape_header epoch_low2 seq16 payload out_cap short room =
    serialize-Accepts (fixed_shape epoch_low2 seq16) payload out_cap (inl refl, inl refl, inr short)
      (omega arith) (omega arith)
