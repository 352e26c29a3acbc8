-- ===== src/Driver/Delivery.antt =====
-- A handshake message that one end sends reaches the other end as it was.
use nano_dtls.Base.{
  IsBytes, IsBytes-append, ℕ, suc, ◌+◌, ◌^◌, ◌≤◌, ◌<◌, ◌≡◌, refl, sym, ap, ◌∙◌, arith, [], ◌++◌,
  Bytes, length, bytes_of, Result, ok, bind-returns,
}
use mathlib.Core.List.{append-nil}
use nano_dtls.Aead.{Aead, Sealed, Laws, tag_len, key_len, nonce_len}
use nano_dtls.Protect.{Protection, Unprotection, Protected, protect, unprotect, max_inner}
use nano_dtls.Protect.Nonce.{length-build_nonce}
use nano_dtls.Protect.Opening.{seen}
use nano_dtls.Protect.RoundTrip.{Paired, unprotect-protect, protect-runs, record_of}
use nano_dtls.Handshake.Header.{HandshakeHdr, hdr_len}
use nano_dtls.Handshake.Header
use nano_dtls.Handshake.Header.RoundTrip.{
  header_bytes-IsBytes, length-header_bytes, serialize-Accepts, parse-serialize_handshake,
}
use nano_dtls.Transcript.{Transcript, add}
use nano_dtls.Driver.{
  Crypto, handshake_type, max_msg, whole_message, wrap_and_add, Received, read_handshake, Opened,
  open_protected, expect, Outgoing, seal_message,
}

-- What is documented of the AEAD: its laws, and that with a key and a nonce of their sizes it seals
-- every plaintext.
pub record Seals (aead : Aead) : Type 0 where
  pub laws : Laws aead
  pub total :
      (key nonce aad plaintext : Bytes)
      → length key ≡ key_len
      → length nonce ≡ nonce_len
      → (sealed : Sealed) × (aead.encrypt key nonce aad plaintext ≡ ok sealed)

-- The message with that header and body.
abbrev pub message_of : ℕ → ℕ → Bytes → Bytes
message_of msg_type seq body = Header.header_bytes (whole_message msg_type seq body) ++ body

-- What the other end reads.
abbrev pub received_of : ℕ → ℕ → Bytes → Received
received_of msg_type seq body = record {
  hdr = whole_message msg_type seq body;
  fragment = body;
  message = message_of msg_type seq body;
}

pub length-message_of :
    (msg_type seq : ℕ) (body : Bytes)
    → length (message_of msg_type seq body) ≡ hdr_len + length body
length-message_of msg_type seq body = length-header_bytes (whole_message msg_type seq body) body

serialize-message_of :
    (msg_type seq : ℕ) (body : Bytes) (out_cap : ℕ)
    → length body < 2 ^ 24
    → hdr_len + length body ≤ out_cap
    → Header.serialize (whole_message msg_type seq body) body out_cap
      ≡ ok (message_of msg_type seq body)
serialize-message_of msg_type seq body out_cap short room =
    serialize-Accepts (whole_message msg_type seq body) body out_cap (record {
      fits = record {
        length_fits = omega arith;
        offset_fits = omega arith;
        fragment_fits = omega arith;
      };
      same_length = omega arith;
      room = room;
    })

pub wrap_and_add-message_of :
    (t : Transcript) (msg_type seq : ℕ) (body : Bytes) (out_cap : ℕ)
    → length body < 2 ^ 24
    → hdr_len + length body ≤ out_cap
    → wrap_and_add t msg_type seq body out_cap
      ≡ ok (record {
        out = message_of msg_type seq body;
        transcript = add t (message_of msg_type seq body);
      })
unfolding wrap_and_add
wrap_and_add-message_of t msg_type seq body out_cap short room =
    bind-returns _ (serialize-message_of msg_type seq body out_cap short room) refl

pub read_handshake-message_of :
    (msg_type seq : ℕ) (body : Bytes)
    → seq < 2 ^ 16
    → length body < 2 ^ 24
    → read_handshake (message_of msg_type seq body) ≡ ok (received_of msg_type seq body)
unfolding read_handshake
read_handshake-message_of msg_type seq body fits short =
    let message : Bytes = message_of msg_type seq body in
    let (p, read, hdr, shown) =
      parse-serialize_handshake (whole_message msg_type seq body) body [] message
        (hdr_len + length body) fits
        (serialize-message_of msg_type seq body (hdr_len + length body) short (omega arith)) in
    bind-returns _ (ap Header.parse (sym (append-nil message)) ∙ read) (λ i. ok (record {
      hdr = hdr i;
      fragment = (ap (λ m. bytes_of m p.fragment) (sym (append-nil message)) ∙ shown) i;
      message = message;
    }))

pub expect-received_of :
    (msg_type seq : ℕ) (body : Bytes) → expect msg_type (received_of msg_type seq body) ≡ ok tt
unfolding expect
expect-received_of msg_type seq body = ground arith

-- The two ends are in step: they share the keys, and `count` messages have passed.
pub record InStep (w : Protection) (u : Unprotection) (count : ℕ) : Type 0 where
  pub paired : Paired w u
  pub next : w.next_send_sequence ≡ count
  pub highest : u.highest_seen_sequence ≤ count
  pub few : count < 2 ^ 14
  pub key_sized : length w.write_key ≡ key_len
  pub iv_sized : length w.write_iv ≡ nonce_len

-- A message that was sealed, sent and opened.
pub record Delivery (crypto : Crypto) (w : Protection) (u : Unprotection) (t : Transcript)
    (count : ℕ) (sealing : Result Outgoing) (received : Received) : Type 0 where
  pub out : Outgoing
  pub opened : Opened
  pub sealed : sealing ≡ ok out
  pub received_is : open_protected crypto u out.out ≡ ok (record opened { received = received })
  pub transcript : out.transcript ≡ add t received.message
  pub in_step : InStep out.writer opened.reader (suc count)

protect-total :
    (crypto : Crypto) (seals : Seals crypto.aead) (w : Protection) (content_type : ℕ)
    (plaintext : Bytes) (out_cap : ℕ)
    → length w.write_key ≡ key_len
    → length w.write_iv ≡ nonce_len
    → length plaintext < max_inner
    → 5 + (length plaintext + 1 + tag_len) ≤ out_cap
    → (sealed : Sealed) × (protect crypto.aead w content_type plaintext out_cap
        ≡ ok (record_of w (length plaintext) sealed))
protect-total crypto seals w content_type plaintext out_cap key iv short room =
    let (sealed, encrypted) =
      seals.total _ _ _ _ key (length-build_nonce w.write_iv w.next_send_sequence iv) in
    (
      sealed,
      protect-runs crypto.aead w content_type plaintext out_cap short room
          ∙ bind-returns _ encrypted refl,
    )

-- A message of at most 2035 bytes is sealed and opened, and the two ends stay in step.
pub seal_message-Delivery :
    (crypto : Crypto) (seals : Seals crypto.aead) (w : Protection) (u : Unprotection)
    (t : Transcript) (count msg_type seq : ℕ) (body : Bytes) (wrapped_cap : ℕ)
    → InStep w u count
    → suc count < 2 ^ 14
    → msg_type < 256
    → IsBytes body
    → seq < 2 ^ 16
    → hdr_len + length body < max_inner
    → hdr_len + length body ≤ wrapped_cap
    → Delivery crypto w u t count
        (seal_message crypto w t msg_type seq body wrapped_cap)
        (received_of msg_type seq body)
unfolding seal_message open_protected
seal_message-Delivery crypto seals w u t count msg_type seq body wrapped_cap step more typed bytes
      fits short room =
    let message : Bytes = message_of msg_type seq body in
    let size : length message ≡ hdr_len + length body = length-message_of msg_type seq body in
    let (sealed, protected) =
      protect-total crypto seals w handshake_type message max_msg step.key_sized step.iv_sized
        (omega (arith, size)) (omega (arith, size)) in
    let r : Protected = record_of w (length message) sealed in
    let next = step.next in
    let highest = step.highest in
    let few = step.few in
    let opened : unprotect crypto.aead u (r.out ++ []) max_msg
        ≡ ok (record {
          plaintext = message;
          content_type = handshake_type;
          state = seen u w.next_send_sequence;
        }) =
      unprotect-protect crypto.aead seals.laws w u handshake_type message [] max_msg max_msg r
        step.paired (omega arith, omega arith, omega arith, omega arith) (omega arith) (omega arith)
        (IsBytes-append (Header.header_bytes (whole_message msg_type seq body)) body
          (header_bytes-IsBytes (whole_message msg_type seq body) typed) bytes)
        (omega (arith, size)) protected in
    record {
      out = record { out = r.out; writer = r.state; transcript = add t message };
      opened = record {
        received = received_of msg_type seq body;
        reader = seen u w.next_send_sequence;
      };
      sealed =
          bind-returns _
            (wrap_and_add-message_of t msg_type seq body wrapped_cap (omega arith) room)
            (bind-returns _ protected refl);
      received_is =
          bind-returns _
            (ap (λ d. unprotect crypto.aead u d max_msg) (sym (append-nil r.out)) ∙ opened)
            (bind-returns _ (read_handshake-message_of msg_type seq body fits (omega arith)) refl);
      transcript = refl;
      in_step = record {
        paired = step.paired;
        next = omega arith;
        highest = ground arith;
        few = more;
        key_sized = step.key_sized;
        iv_sized = step.iv_sized;
      };
    }
