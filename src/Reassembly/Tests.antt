-- ===== src/Reassembly/Tests.antt =====
-- A message of five bytes that arrives out of order, with an overlap and a repeat.
use nano_dtls.Base.{◌≡◌, refl, true, false, [], ◌∷◌, List, arith, Bytes, replicate, take}
use nano_dtls.Base.{ok, fault}
use nano_dtls.Handshake.Header.{HandshakeHdr}
use nano_dtls.Reassembly.{Reassembly, init, add_fragment, is_complete}
use nano_dtls.Reassembly.Valid.{
  IsValid, Explains, init-IsValid, add_fragment_safe, wrapped_fragment_faults,
}
use nano_dtls.Reassembly.Pieces.{Piece, deliver, hdr_of}
use nano_dtls.Reassembly.Message.{reassembly_completes, reassembly_correct}

-- A state after `nd_reassembly_init`, its buffer full of what was there before.
abbrev idle : Reassembly
idle = record {
  buf = replicate 4096 0xaa;
  received = replicate 4096 0;
  total_len = 0;
  total_len_known = false;
  msg_type = 0;
  message_seq = 0;
  in_progress = false;
}

idle_by_init : init idle ≡ idle
unfolding init
idle_by_init = refl

idle-IsValid : IsValid idle
idle-IsValid = record { buf_size = refl; received_size = refl; total_fits = omega arith }

abbrev message : Bytes
message = 1 ∷ 2 ∷ 3 ∷ 4 ∷ 5 ∷ []

abbrev tail_piece : Piece
tail_piece = record { offset = 3; len = 2 }

abbrev head_piece : Piece
head_piece = record { offset = 0; len = 2 }

abbrev middle_piece : Piece
middle_piece = record { offset = 1; len = 3 }

abbrev arrived : List Piece
arrived = middle_piece ∷ tail_piece ∷ head_piece ∷ tail_piece ∷ []

reassembly_completes_example :
    (r' : Reassembly) × (deliver 20 4 message idle (tail_piece ∷ head_piece ∷ []) ≡ ok r')
    × (is_complete r' ≡ ok false)
reassembly_completes_example =
    reassembly_completes 20 4 message idle tail_piece (head_piece ∷ []) (omega arith) idle-IsValid
      refl (omega arith)

reassembly_correct_example :
    (r' : Reassembly) × (deliver 20 4 message idle arrived ≡ ok r')
    × (is_complete r' ≡ ok true)
    × (take r'.total_len r'.buf ≡ message)
reassembly_correct_example =
    reassembly_correct 20 4 message idle middle_piece (tail_piece ∷ head_piece ∷ tail_piece ∷ [])
      (omega arith) idle-IsValid refl (omega arith) refl

abbrev head_hdr : HandshakeHdr
head_hdr = hdr_of 20 4 message head_piece

add_fragment_safe_example : Explains idle head_hdr (add_fragment idle head_hdr (1 ∷ 2 ∷ []))
add_fragment_safe_example =
    add_fragment_safe idle head_hdr (1 ∷ 2 ∷ []) idle-IsValid (omega arith) (omega arith)

-- An offset of 2 ^ 32 - 1 and one byte: the sum is 0.
abbrev wrapped_hdr : HandshakeHdr
wrapped_hdr = record head_hdr { fragment_offset = 0xffff_ffff; fragment_length = 1 }

wrapped_fragment_faults_example : add_fragment idle wrapped_hdr (7 ∷ []) ≡ fault
wrapped_fragment_faults_example =
    wrapped_fragment_faults idle wrapped_hdr (7 ∷ []) idle-IsValid refl (omega arith) (omega arith)
      (omega arith) (omega arith) (omega arith) (omega arith) (omega arith)

init-IsValid_example : IsValid (init idle)
init-IsValid_example = init-IsValid idle refl
