-- ===== src/Driver/Accepted.antt =====
-- What the shared steps of the two drivers have checked where they return.
use nano_dtls.Base.{
  ℕ, ◌≡◌, refl, sym, ap, ◌∙◌, arith, Bool, true, false, List, [], ◌∷◌, ◌!=◌, Bytes, length, Result,
  ok, ◌>>=◌, ◌>>◌, bind-ok, fail_if, Status, bytes_of, ok-injective,
}
use nano_dtls.Sha256.{sha256}
use nano_dtls.Sha256.Padding.{joined}
use nano_dtls.Transcript.{add, Transcript, empty}
use nano_dtls.Transcript.Snapshot.{add_all, snapshot-add_all}
use nano_dtls.KeySchedule.{HandshakeKeys, derive_handshake_keys, finished_verify}
use nano_dtls.Hkdf.{hash_len}
use nano_dtls.Driver.{
  Crypto, Received, read_handshake, open_plaintext, open_protected, expect, hs_finished, all_zero,
  agree, dtls13, Opened, Wrapped, wrap_and_add, whole_message, max_msg, handshake_type,
}
use nano_dtls.Protect.{Protection, Unprotection, Protected, protect, unprotect}
use nano_dtls.Record.Plaintext
use nano_dtls.Handshake.Header

-- The bytes are a whole handshake message of that type, with that body.
pub record Message (msg_type : ℕ) (bytes body : Bytes) : Type 0 where
  pub received : Received
  pub parsed : read_handshake bytes ≡ ok received
  pub expected : expect msg_type received ≡ ok tt
  pub carries : received.fragment ≡ body

-- The message that was received, with its type.
pub whole :
    (msg_type : ℕ) (received : Received)
    → read_handshake received.message ≡ ok received
    → expect msg_type received ≡ ok tt
    → Message msg_type received.message received.fragment
whole msg_type received parsed expected = record {
  received = received;
  parsed = parsed;
  expected = expected;
  carries = refl;
}

-- The Finished message has the MAC of the messages before under that secret.
pub record FinishedAccepted (secret : Bytes) (messages : List Bytes) (message : Bytes)
    : Type 0 where
  pub body : Bytes
  pub is_finished : Message hs_finished message body
  pub sized : length body ≡ hash_len
  pub verified : finished_verify dtls13 secret (sha256 (joined messages)) body ≡ ok tt

-- A guard that was passed.
pub guard-passed {ℓ} :
    {B : Type ℓ} (b : Bool) (e : Status) (k : Result B) (r : B)
    → (fail_if b e >> k) ≡ ok r
    → (b ≡ false) × (k ≡ ok r)
guard-passed true e k r h = absurd (ground (arith, h))
guard-passed false e k r h = (refl, h)

-- A call without outputs that was passed.
pub call-passed {ℓ} :
    {B : Type ℓ} (m : Result (Unit {0})) (k : Result B) (r : B)
    → (m >> k) ≡ ok r
    → (m ≡ ok tt) × (k ≡ ok r)
call-passed m k r h = let (a, passed, rest) = bind-ok m (λ _. k) r h in (passed, rest)

-- The two ends of the exchange have a secret that is not zero, and their keys are derived from it
-- and from the messages so far.
pub record Agreed (crypto : Crypto) (private_key peer_key : Bytes) (messages : List Bytes)
    (keys : HandshakeKeys) : Type 0 where
  pub shared_secret : Bytes
  pub exchanged : crypto.x25519_scalarmult private_key peer_key ≡ ok shared_secret
  pub contributory : all_zero shared_secret ≡ false
  pub derived : derive_handshake_keys dtls13 shared_secret (sha256 (joined messages)) ≡ ok keys

pub agree-Agreed :
    (crypto : Crypto) (private_key peer_key : Bytes) (messages : List Bytes) (keys : HandshakeKeys)
    → agree crypto private_key peer_key (add_all messages empty) ≡ ok keys
    → Agreed crypto private_key peer_key messages keys
unfolding agree
agree-Agreed crypto private_key peer_key messages keys h =
    let (secret, exchanged, h1) =
      bind-ok (crypto.x25519_scalarmult private_key peer_key) _ keys h in
    let (nonzero, h2) = guard-passed (all_zero secret) _ _ keys h1 in
    record {
      shared_secret = secret;
      exchanged = exchanged;
      contributory = nonzero;
      derived = sym (ap (derive_handshake_keys dtls13 secret) (snapshot-add_all messages)) ∙ h2;
    }

pub read_handshake-message :
    (message : Bytes) (received : Received)
    → read_handshake message ≡ ok received
    → read_handshake received.message ≡ ok received
unfolding read_handshake
read_handshake-message message received h =
    let (parsed, read, h1) = bind-ok (Header.parse message) _ received h in
    let same : message ≡ received.message = ap Received.message (ok-injective _ received h1) in
    ap
      (λ (m : Bytes).
        (Header.parse m >>= λ p.
        ok (record { hdr = p.hdr; fragment = bytes_of m p.fragment; message = m })))
      (sym same)
    ∙ h

-- A message is read from the bytes that go into the transcript.
pub open_plaintext-message :
    (datagram : Bytes) (received : Received)
    → open_plaintext datagram ≡ ok received
    → read_handshake received.message ≡ ok received
unfolding open_plaintext
open_plaintext-message datagram received h =
    let (parsed, read, h1) = bind-ok (Plaintext.parse datagram) _ received h in
    let (typed, h2) = guard-passed (parsed.hdr.type != handshake_type) _ _ received h1 in
    read_handshake-message (bytes_of datagram parsed.fragment) received h2

pub open_protected-message :
    (crypto : Crypto) (u : Unprotection) (datagram : Bytes) (opened : Opened)
    → open_protected crypto u datagram ≡ ok opened
    → read_handshake opened.received.message ≡ ok opened.received
unfolding open_protected
open_protected-message crypto u datagram opened h =
    let (plain, read, h1) = bind-ok (unprotect crypto.aead u datagram max_msg) _ opened h in
    let (typed, h2) = guard-passed (plain.content_type != handshake_type) _ _ opened h1 in
    let (received, parsed, h3) = bind-ok (read_handshake plain.plaintext) _ opened h2 in
    let same : received ≡ opened.received = ap Opened.received (ok-injective _ opened h3) in
    read_handshake-message plain.plaintext opened.received (parsed ∙ ap ok same)

-- What was wrapped is what was added.
pub wrap_and_add-transcript :
    (t : Transcript) (msg_type seq : ℕ) (body : Bytes) (out_cap : ℕ) (w : Wrapped)
    → wrap_and_add t msg_type seq body out_cap ≡ ok w
    → w.transcript ≡ add t w.out
unfolding wrap_and_add
wrap_and_add-transcript t msg_type seq body out_cap w h =
    let (out, e, h1) =
      bind-ok (Header.serialize (whole_message msg_type seq body) body out_cap) _ w h in
    let same : record { out = out; transcript = add t out } ≡ w = ok-injective _ w h1 in
    sym (ap Wrapped.transcript same) ∙ ap (add t) (ap Wrapped.out same)

-- The datagrams are opened one after the other, from that state of the reader on, and give the
-- messages.
abbrev pub Opening : Crypto → Unprotection → List (Bytes × Bytes) → Type 0
Opening crypto u [] = Unit {0}
Opening crypto u ((datagram, message) ∷ rest) =
    (o : Opened) × (open_protected crypto u datagram ≡ ok o)
    × (o.received.message ≡ message)
    × Opening crypto o.reader rest

-- The messages are protected one after the other, from that state of the writer on, and give the
-- datagrams.
abbrev pub Sealing : Crypto → Protection → List (Bytes × Bytes) → Type 0
Sealing crypto w [] = Unit {0}
Sealing crypto w ((datagram, message) ∷ rest) =
    (p : Protected) × (protect crypto.aead w handshake_type message max_msg ≡ ok p)
    × (p.out ≡ datagram)
    × Sealing crypto p.state rest
