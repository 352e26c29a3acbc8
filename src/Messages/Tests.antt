-- ===== src/Messages/Tests.antt =====
-- A message of two certificates.
use nano_dtls.Base.{◌≤◌, ◌<◌, ◌≡◌, ◌⊎◌, arith, List, [], ◌∷◌, ◌++◌}
use nano_dtls.Base.{Bytes, length, ok, err, bad_length}
use nano_dtls.Messages.{certificate_serialize, certificate_parse}
use nano_dtls.Messages.Certificate.{certificate_message, certificate_roundtrip}

abbrev certs : List Bytes
certs = (1 ∷ 2 ∷ []) ∷ (3 ∷ []) ∷ []

certificate_roundtrip_example :
    ((40 < length (certificate_message certs)) × (certificate_serialize certs 40 ≡ err bad_length))
    ⊎ ((length (certificate_message certs) ≤ 40)
        × (certificate_serialize certs 40 ≡ ok (certificate_message certs))
        × (certificate_parse (certificate_message certs ++ 9 ∷ []) ≡ ok certs))
certificate_roundtrip_example =
    certificate_roundtrip certs 40 (9 ∷ []) (omega arith) (omega arith) (omega arith)
