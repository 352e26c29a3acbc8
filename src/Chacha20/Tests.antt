-- ===== src/Chacha20/Tests.antt =====
-- The block of RFC 8439, section 2.3.2, and a short message.
use nano_dtls.Base.{◌≡◌, refl, [], ◌∷◌, Bytes, ok, Result, take}
use nano_dtls.Base.{arith}
use nano_dtls.Chacha20.{block, quarter, double_round, rounds, chacha20_xor}
use nano_dtls.Chacha20.Rfc8439.{encrypted}
use nano_dtls.Chacha20.Conforms.{chacha20_xor-rfc8439}

abbrev key : Bytes
key =
    0 ∷ 1 ∷ 2 ∷ 3 ∷ 4 ∷ 5 ∷ 6 ∷ 7 ∷ 8 ∷ 9 ∷ 10 ∷ 11 ∷ 12 ∷ 13 ∷ 14 ∷ 15 ∷ 16 ∷ 17 ∷ 18 ∷ 19 ∷ 20
    ∷ 21 ∷ 22 ∷ 23 ∷ 24 ∷ 25 ∷ 26 ∷ 27 ∷ 28 ∷ 29 ∷ 30 ∷ 31 ∷ []

abbrev nonce : Bytes
nonce = 0 ∷ 0 ∷ 0 ∷ 9 ∷ 0 ∷ 0 ∷ 0 ∷ 0x4a ∷ 0 ∷ 0 ∷ 0 ∷ 0 ∷ []

abbrev first_bytes : Result Bytes → Bytes
first_bytes (ok b) = take 8 b
first_bytes _ = []

block_runs :
    first_bytes (block key nonce 1) ≡ 0x10 ∷ 0xf1 ∷ 0xe7 ∷ 0xe4 ∷ 0xd1 ∷ 0x3b ∷ 0x59 ∷ 0x15 ∷ []
unfolding block quarter double_round rounds
block_runs = refl

abbrev message : Bytes
message = 1 ∷ 2 ∷ 3 ∷ []

chacha20_xor-rfc8439_example :
    chacha20_xor key nonce 1 message ≡ ok (encrypted key nonce 1 0 message)
chacha20_xor-rfc8439_example =
    chacha20_xor-rfc8439 key nonce 1 (omega arith) (omega arith) refl refl message (omega arith)
      (omega arith)
