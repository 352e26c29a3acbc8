-- ===== src/Protect/Tests.antt =====
-- Protection of records at concrete ones, with an AEAD that leaves the plaintext as it is and whose
-- tag repeats the length of the additional data.
use nano_dtls.Base.{◌≡◌, ◌≢◌, refl, arith, ◌++◌, [], ◌∷◌, Bytes, replicate}
use nano_dtls.Base.{ok}
use nano_dtls.Aead.Toy.{toy, toy-Laws}
use nano_dtls.Protect.{
  Protection, Unprotection, Protected, protect, unprotect, build_nonce, write_fixed_shape_header,
}
use nano_dtls.Protect.Nonce.{build_nonce_distinct}
use nano_dtls.Protect.Opening.{seen}
use nano_dtls.Protect.RoundTrip.{unprotect-protect}
use nano_dtls.Protect.Safety.{Sound, unprotect_safe}

abbrev key : Bytes
key = replicate 32 7

abbrev iv : Bytes
iv = 1 ∷ 2 ∷ 3 ∷ 4 ∷ 5 ∷ 6 ∷ 7 ∷ 8 ∷ 9 ∷ 10 ∷ 11 ∷ 12 ∷ []

abbrev sender : Protection
sender = record { write_key = key; write_iv = iv; next_send_sequence = 258; epoch = 3 }

abbrev receiver : Unprotection
receiver = record { read_key = key; read_iv = iv; highest_seen_sequence = 100; epoch = 3 }

nonce_runs : build_nonce iv 258 ≡ 1 ∷ 2 ∷ 3 ∷ 4 ∷ 5 ∷ 6 ∷ 7 ∷ 8 ∷ 9 ∷ 10 ∷ 10 ∷ 14 ∷ []
unfolding build_nonce
nonce_runs = refl

abbrev sent : Protected
sent = record {
  out = 0x2f ∷ 1 ∷ 2 ∷ 0 ∷ 19 ∷ 4 ∷ 5 ∷ 23 ∷ replicate 16 5;
  state = record sender { next_send_sequence = 259 };
}

protect_runs : protect toy sender 23 (4 ∷ 5 ∷ []) 24 ≡ ok sent
unfolding protect write_fixed_shape_header build_nonce
protect_runs = refl

build_nonce_distinct_example : build_nonce iv 258 ≢ build_nonce iv 259
build_nonce_distinct_example =
    build_nonce_distinct iv 258 259 refl (omega arith) (omega arith) (omega arith)

unprotect-protect_example :
    unprotect toy receiver (sent.out ++ 99 ∷ []) 10
    ≡ ok (record { plaintext = 4 ∷ 5 ∷ []; content_type = 23; state = seen receiver 258 })
unprotect-protect_example =
    unprotect-protect toy toy-Laws sender receiver 23 (4 ∷ 5 ∷ []) (99 ∷ []) 24 10 sent
      (refl, refl, refl, omega arith) (omega arith, omega arith, omega arith, omega arith)
      (omega arith) (omega arith) (omega arith, (omega arith, tt)) (omega arith) protect_runs

unprotect_safe_example : Sound receiver 1 (unprotect toy receiver sent.out 1)
unprotect_safe_example = unprotect_safe toy toy-Laws receiver sent.out 1 refl refl
