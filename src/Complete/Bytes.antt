-- ===== src/Complete/Bytes.antt =====
-- The bodies of the server's messages are bytes.
use nano_dtls.Base.{
  ℕ, arith, Bool, true, false, List, [], ◌∷◌, ◌++◌, Bytes, IsBytes, IsBytes-append, IsBytes-drop,
  length, u8, ◌<◌, if◌then◌else◌, ◌>>>◌, bit_and, get_or, ◌!=◌, drop,
}
use nano_dtls.Messages.Certificate.{certificate_message, entry_list}
use nano_dtls.Wire.Reading.{vec16}
use nano_dtls.Asn1.{leading, integer_content, der_encode_uint32}
use nano_dtls.Asn1.Signature.{signature}

abbrev pub AllBytes : List Bytes → Type 0
AllBytes [] = Unit
AllBytes (cert ∷ certs) = IsBytes cert × AllBytes certs

low : (n : ℕ) → u8 n < 256
low n = omega arith

entry_list-IsBytes : (certs : List Bytes) → AllBytes certs → IsBytes (entry_list certs)
entry_list-IsBytes [] h = tt
entry_list-IsBytes (cert ∷ certs) h =
    let rest : IsBytes (vec16 [] ++ entry_list certs) =
      (omega arith, (omega arith, entry_list-IsBytes certs h.1)) in
    (
      low (length cert >>> 16),
      (
        low (length cert >>> 8),
        (low (length cert), IsBytes-append cert (vec16 [] ++ entry_list certs) h.0 rest),
      ),
    )

pub certificate_message-IsBytes :
    (certs : List Bytes) → AllBytes certs → IsBytes (certificate_message certs)
certificate_message-IsBytes certs h =
    let n = length (entry_list certs) in
    (omega arith, (low (n >>> 16), (low (n >>> 8), (low n, entry_list-IsBytes certs h))))

integer_content-IsBytes : (val : Bytes) → IsBytes val → IsBytes (integer_content val)
integer_content-IsBytes val h =
    let trimmed : Bytes = drop (leading 31 val) val in
    of_test (bit_and (get_or trimmed 0 0) 0x80 != 0) (IsBytes-drop (leading 31 val) val h)
  where
    of_test :
        (b : Bool)
        → IsBytes (drop (leading 31 val) val)
        → IsBytes (if b then 0 ∷ drop (leading 31 val) val else drop (leading 31 val) val)
    of_test true k = (omega arith, k)
    of_test false k = k

der_encode_uint32-IsBytes : (val : Bytes) → IsBytes val → IsBytes (der_encode_uint32 val)
der_encode_uint32-IsBytes val h =
    (omega arith, (low (length (integer_content val)), integer_content-IsBytes val h))

pub signature-IsBytes : (r s : Bytes) → IsBytes r → IsBytes s → IsBytes (signature r s)
signature-IsBytes r s hr hs =
    let body : Bytes = der_encode_uint32 r ++ der_encode_uint32 s in
    (
      omega arith,
      (
        low (length body),
        IsBytes-append (der_encode_uint32 r) (der_encode_uint32 s) (der_encode_uint32-IsBytes r hr)
            (der_encode_uint32-IsBytes s hs),
      ),
    )
