-- ===== src/Poly1305/Tests.antt =====
-- The test vector of RFC 8439, 2.5.2.
use nano_dtls.Poly1305.Load.{number}
use nano_dtls.Poly1305.Mac.{Between}
use nano_dtls.Poly1305.Whole.{evaluate, poly1305_mac-evaluate}
use nano_dtls.Poly1305.Final.{absorbed, final-number}
use nano_dtls.Base.{
  ◌+◌, ◌-◌, ◌^◌, arith, ◌≡◌, refl, [], ◌∷◌, Bytes, ◌%◌, take, slice, drop, length, suc, gets,
}
use nano_dtls.Poly1305.{
  Limbs, Ctx, fives, poly1305_mac, init, update, final, update_loop, process_full_block, clamp_r,
  bytes_to_limbs, carry, full_carry, reduce_once, pack,
}

abbrev key : Bytes
key =
    133 ∷ 214 ∷ 190 ∷ 120 ∷ 87 ∷ 85 ∷ 109 ∷ 51 ∷ 127 ∷ 68 ∷ 82 ∷ 254 ∷ 66 ∷ 213 ∷ 6 ∷ 168 ∷ 1 ∷ 3
    ∷ 128 ∷ 138 ∷ 251 ∷ 13 ∷ 178 ∷ 253 ∷ 74 ∷ 191 ∷ 246 ∷ 175 ∷ 65 ∷ 73 ∷ 245 ∷ 27 ∷ []

abbrev msg : Bytes
msg =
    67 ∷ 114 ∷ 121 ∷ 112 ∷ 116 ∷ 111 ∷ 103 ∷ 114 ∷ 97 ∷ 112 ∷ 104 ∷ 105 ∷ 99 ∷ 32 ∷ 70 ∷ 111 ∷ 114
    ∷ 117 ∷ 109 ∷ 32 ∷ 82 ∷ 101 ∷ 115 ∷ 101 ∷ 97 ∷ 114 ∷ 99 ∷ 104 ∷ 32 ∷ 71 ∷ 114 ∷ 111 ∷ 117 ∷ 112
    ∷ []

mac_runs :
    poly1305_mac key msg
    ≡ 168 ∷ 6 ∷ 29 ∷ 193 ∷ 48 ∷ 81 ∷ 54 ∷ 198 ∷ 194 ∷ 43 ∷ 139 ∷ 175 ∷ 12 ∷ 1 ∷ 39 ∷ 169 ∷ []
unfolding init update final update_loop process_full_block clamp_r bytes_to_limbs carry full_carry
    reduce_once pack
mac_runs = refl

-- A context after some blocks, with five bytes in its buffer.
abbrev begun : Ctx
begun =
    let r : Limbs = record {
      l0 = 0x3ffffff;
      l1 = 0x3ffff03;
      l2 = 0x3ffc0ff;
      l3 = 0x3f03fff;
      l4 = 0x00fffff;
    } in
    record {
      r = r;
      s = fives r;
      h = record { l0 = 0x3ffffff; l1 = 5; l2 = 0x3000000; l3 = 9; l4 = 0x2ffffff };
      pad = slice key 16 16;
      buf = 1 ∷ 2 ∷ 3 ∷ 0 ∷ 255 ∷ [];
    }

begun-Between : Between begun
begun-Between = record {
  fives_of = refl;
  key = record {
    k0 = omega arith;
    k1 = omega arith;
    k2 = omega arith;
    k3 = omega arith;
    k4 = omega arith;
  };
  carried = record {
    c0 = omega arith;
    c1 = omega arith;
    c2 = omega arith;
    c3 = omega arith;
    c4 = omega arith;
  };
}

final-number_example :
    number (final begun) ≡ (absorbed begun % (2 ^ 130 - 5) + number (gets 16 0 begun.pad)) % 2 ^ 128
final-number_example = final-number begun begun-Between (ground arith) (omega arith) (ground arith)

poly1305_mac-evaluate_example :
    number (poly1305_mac key msg)
    ≡ (evaluate (suc (length msg)) (number (clamp_r (take 16 key))) 0 msg + number (drop 16 key))
      % 2 ^ 128
poly1305_mac-evaluate_example = poly1305_mac-evaluate key msg (ground arith) refl (ground arith)
