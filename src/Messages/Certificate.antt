-- ===== src/Messages/Certificate.antt =====
-- What `nd_certificate_serialize` writes, and that `nd_certificate_parse` reads it back.
use nano_dtls.Base.{
  ℕ, zero, suc, ◌+◌, ◌^◌, ◌≤◌, ◌<◌, ◌≡◌, refl, ap, ◌∙◌, arith, false, List, [], ◌∷◌, ◌++◌, ltb,
  ◌==◌, ◌||◌, ◌⊎◌, if◌then◌else◌,
}
use nano_dtls.Base.{
  Bytes, length, length-append, ok, err, bad_length, bad_arg, drop, u8, ◌>>>◌, lt→ltb,
}
use mathlib.Core.List.{append_assoc, append-nil}
use nano_dtls.Wire.Writing.{
  Emits, room_cases, w_bytes-Emits, nothing-Emits, then-Emits, sized_u16-Emits, sized_u24-Emits,
  finish-Emits,
}
use nano_dtls.Wire.Reading.{
  step, at, at_rest, value-ok, lift-ok, refuse-ok, spent, more, vec16, vec24, skip_vec16,
  read_vec24, skip_vec8,
}
use nano_dtls.Messages.{
  max_certs, entry, entries, certificate_serialize, parse_entries, certificate_parse,
}

-- RFC 8446, 4.4.2: the list of the entries, each a certificate and an empty list of extensions.
abbrev pub entry_list : List Bytes → Bytes
entry_list [] = []
entry_list (cert ∷ certs) = vec24 cert ++ (vec16 [] ++ entry_list certs)

-- The message: an empty context, and the list.
abbrev pub certificate_message : List Bytes → Bytes
certificate_message certs = 0 ∷ vec24 (entry_list certs)

entry-Emits : (cert : Bytes) → Emits (entry cert) (vec24 cert ++ vec16 [])
entry-Emits cert = then-Emits (sized_u24-Emits (w_bytes-Emits cert)) (sized_u16-Emits nothing-Emits)

entries-Emits : (certs : List Bytes) → Emits (entries certs) (entry_list certs)
entries-Emits [] = nothing-Emits
entries-Emits (cert ∷ certs) =
    rw⁻¹ (append_assoc (vec24 cert) (vec16 []) (entry_list certs))
      (then-Emits (entry-Emits cert) (entries-Emits certs))

-- On every branch.
certificate_serialize_branches :
    (certs : List Bytes) (out_cap : ℕ)
    → certificate_serialize certs out_cap ≡ (
        if length certs == 0 || ltb max_certs (length certs)
        then err bad_arg
        else if ltb out_cap (length (certificate_message certs))
        then err bad_length
        else ok (certificate_message certs))
unfolding certificate_serialize
certificate_serialize_branches certs out_cap =
    ap (λ m. if length certs == 0 || ltb max_certs (length certs) then err bad_arg else m)
      (finish-Emits out_cap bad_length
        (then-Emits (w_bytes-Emits (0 ∷ [])) (sized_u24-Emits (entries-Emits certs))))

-- Each certificate and its entry are shorter than the list.
length-entry_list :
    (cert : Bytes) (certs : List Bytes)
    → length (entry_list (cert ∷ certs)) ≡ 5 + length cert + length (entry_list certs)
length-entry_list cert certs = omega (arith, length-append cert (vec16 [] ++ entry_list certs))

many : (certs : List Bytes) → length certs ≤ length (entry_list certs)
many [] = omega arith
many (cert ∷ certs) = omega (arith, many certs, length-entry_list cert certs)

parse_entries-entry_list :
    (certs found : List Bytes) (fuel : ℕ) (pre : Bytes)
    → length found + length certs ≤ max_certs
    → length certs < fuel
    → length (entry_list certs) < 2 ^ 24
    → parse_entries fuel found (at pre (entry_list certs))
      ≡ ok (found ++ certs, at (pre ++ entry_list certs) [])
parse_entries-entry_list certs found zero pre few enough short = absurd (omega arith)
parse_entries-entry_list [] found (suc fuel) pre few enough short =
    rw (spent pre, append-nil found) (λ i. ok (found, at_rest pre i))
parse_entries-entry_list (cert ∷ certs) found (suc fuel) pre few enough short =
    rw
      (
        more pre (u8 (length cert >>> 16)) (drop 1 (entry_list (cert ∷ certs))),
        lt→ltb (length found) max_certs (omega arith),
      )
      (read_vec24 _ _ pre cert (vec16 [] ++ entry_list certs) _
        (omega (arith, length-entry_list cert certs))
        (skip_vec16 _ _ (pre ++ vec24 cert) [] (entry_list certs) _ (omega arith) (
          parse_entries-entry_list certs (found ++ cert ∷ []) fuel (pre ++ vec24 cert ++ vec16 [])
            (omega (arith, length-append found (cert ∷ []))) (omega arith)
            (omega (arith, length-entry_list cert certs))
          ∙ λ i. ok (append_assoc found (cert ∷ []) certs i, at (seen i) []))))
  where
    seen :
        (pre ++ vec24 cert ++ vec16 []) ++ entry_list certs
        ≡ pre ++ (vec24 cert ++ (vec16 [] ++ entry_list certs))
    seen =
        append_assoc (pre ++ vec24 cert) (vec16 []) (entry_list certs)
        ∙ append_assoc pre (vec24 cert) (vec16 [] ++ entry_list certs)

certificate_parse-message :
    (certs : List Bytes) (trailing : Bytes)
    → 0 < length certs
    → length certs ≤ max_certs
    → length (entry_list certs) < 2 ^ 24
    → certificate_parse (certificate_message certs ++ trailing) ≡ ok certs
unfolding certificate_parse
certificate_parse-message certs trailing some few short = value-ok (
    skip_vec8 _ _ [] [] (vec24 (entry_list certs) ++ trailing) _ (omega arith) (
      read_vec24 _ _ (0 ∷ []) (entry_list certs) trailing _ short (
        step _
          (lift-ok _ (
            value-ok (
              parse_entries-entry_list certs [] (suc (length (entry_list certs))) [] (omega arith)
                (omega (arith, many certs)) short)))
          (step _ (refuse-ok (length certs == 0) bad_arg _ (ground (arith, some))) refl))))

-- For one to four certificates whose list is shorter than 2 ^ 24 bytes, in a buffer of `out_cap`
-- bytes: where the message does not fit, the serializer answers `bad_length`; where it fits, it
-- writes the message of RFC 8446, and the parser, given that message with any bytes behind it,
-- returns the certificates.
pub certificate_roundtrip :
    (certs : List Bytes) (out_cap : ℕ) (trailing : Bytes)
    → 0 < length certs
    → length certs ≤ max_certs
    → length (entry_list certs) < 2 ^ 24
    → ((out_cap < length (certificate_message certs))
        × (certificate_serialize certs out_cap ≡ err bad_length))
      ⊎ ((length (certificate_message certs) ≤ out_cap)
          × (certificate_serialize certs out_cap ≡ ok (certificate_message certs))
          × (certificate_parse (certificate_message certs ++ trailing) ≡ ok certs))
certificate_roundtrip certs out_cap trailing some few short =
    room_cases out_cap bad_length (certificate_message certs) (certificate_serialize certs out_cap)
      _ (certificate_serialize_branches certs out_cap ∙ rw counted refl)
      (certificate_parse-message certs trailing some few short)
  where
    counted : (length certs == 0 || ltb max_certs (length certs)) ≡ false
    counted = ground arith
