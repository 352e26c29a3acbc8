-- ===== src/Client/Messages.antt =====
-- What the client's calls of the socket return, and what it starts from.
use nano_dtls.Base.{
  bind-ok, ok-injective, sym, ◌+◌, ℕ, zero, suc, ◌≡◌, ap, ◌∙◌, inl, inr, arith, Bytes, ok, Status,
}
use mathlib.Core.Path.{subst}
use mathlib.Core.List.{append_assoc}
use nano_dtls.Base.{List, [], ◌∷◌, ◌++◌, Result, replicate}
use nano_dtls.Net.{failed}
use nano_dtls.Net.Traffic.{
  Moved, Moved-then, recv-Moved, recv-failed, send-Moved, send-failed, lift-world, lift-failed,
  step-failed,
}
use nano_dtls.Protect.{Unprotection}
use nano_dtls.Transcript.{add, empty}
use nano_dtls.Net.{Net, done, lift, or_bad_arg, recv, send}
use nano_dtls.Record.Plaintext
use nano_dtls.Handshake.Header
use nano_dtls.Hello.{client_hello_serialize}
use nano_dtls.Net.Done.{step-done, lift-returned, retry-done}
use nano_dtls.Driver.{
  Crypto, Received, Opened, read_handshake, open_plaintext, open_protected, wrap_and_add,
  hs_client_hello, hello_record, max_msg,
}
use nano_dtls.Driver.Accepted.{wrap_and_add-transcript, open_protected-message}
use nano_dtls.Client.{Flight, client_flight}
use nano_dtls.Client.Run.{
  hello_attempt, hello_attempts, recv_plaintext_handshake, recv_protected_handshake,
}

-- What a receive returns was read from the bytes for the transcript.
pub recv_protected_handshake-message :
    (crypto : Crypto) (u : Unprotection) (n n' : Net) (opened : Opened)
    → recv_protected_handshake crypto u n ≡ done opened n'
    → read_handshake opened.received.message ≡ ok opened.received
unfolding recv_protected_handshake
recv_protected_handshake-message crypto u n n' opened h =
    let (datagram, n1, arrived, h1) =
      step-done recv (λ d. lift (open_protected crypto u d)) n n' opened h in
    open_protected-message crypto u datagram opened (lift-returned _ n1 n' opened h1)

-- It took one datagram from the socket.
pub recv_protected_handshake-Moved :
    (crypto : Crypto) (u : Unprotection) (n n' : Net) (opened : Opened)
    → recv_protected_handshake crypto u n ≡ done opened n'
    → (d : Bytes) × Moved n n' (ok d ∷ []) [] × (open_protected crypto u d ≡ ok opened)
unfolding recv_protected_handshake
recv_protected_handshake-Moved crypto u n n' opened h =
    let (d, n1, arrived, h1) =
      step-done recv (λ d. lift (open_protected crypto u d)) n n' opened h in
    (
      d,
      subst (λ m. Moved n m (ok d ∷ []) []) (lift-world _ n1 n' opened h1)
          (recv-Moved n n1 d arrived),
      lift-returned _ n1 n' opened h1,
    )

-- What the loop returns is a reply: some answers were skipped, and the ClientHello sent each time.
pub record Replied (n n' : Net) (datagram : Bytes) (received : Received) : Type 0 where
  pub skipped : List (Result Bytes)
  pub reply : Bytes
  pub times : ℕ
  pub moved : Moved n n' (skipped ++ ok reply ∷ []) (replicate times datagram)
  pub opened : open_plaintext reply ≡ ok received

hello_attempt-Replied :
    (datagram : Bytes) (n n' : Net) (received : Received)
    → hello_attempt datagram n ≡ done received n'
    → Replied n n' datagram received
unfolding recv_plaintext_handshake
hello_attempt-Replied datagram n n' received h =
    let (u, n1, sent, h1) =
      step-done (send datagram) (λ _. recv_plaintext_handshake) n n' received h in
    let (reply, n2, arrived, h2) =
      step-done recv (λ d. lift (open_plaintext d)) n1 n' received h1 in
    let took : Moved n1 n' (ok reply ∷ []) [] =
      subst (λ m. Moved n1 m (ok reply ∷ []) []) (lift-world _ n2 n' received h2)
        (recv-Moved n1 n2 reply arrived) in
    record {
      skipped = [];
      reply = reply;
      times = 1;
      moved =
          Moved-then n n1 n' [] (ok reply ∷ []) (datagram ∷ []) [] (send-Moved n n1 datagram sent)
            took;
      opened = lift-returned _ n2 n' received h2;
    }

hello_attempt-failed :
    (datagram : Bytes) (n n' : Net) (e : Status)
    → hello_attempt datagram n ≡ failed e n'
    → (skipped : List (Result Bytes)) × (times : ℕ) × Moved n n' skipped (replicate times datagram)
unfolding recv_plaintext_handshake
hello_attempt-failed datagram n n' e h =
    elim (step-failed (send datagram) (λ _. recv_plaintext_handshake) n n' e h) [
      | inl unsent ↦ ([], 0, send-failed n n' datagram e unsent)
      | inr (u, n1, sent, h1) ↦
          let went = send-Moved n n1 datagram sent in
          elim (step-failed recv (λ d. lift (open_plaintext d)) n1 n' e h1) [
            | inl lost ↦
                let (a, took) = recv-failed n1 n' e lost in
                (a, 1, Moved-then n n1 n' [] a (datagram ∷ []) [] went took)
            | inr (d, n2, arrived, h2) ↦
                let took : Moved n1 n' (ok d ∷ []) [] =
                  subst (λ m. Moved n1 m (ok d ∷ []) []) (lift-failed (open_plaintext d) n2 n' e h2)
                    (recv-Moved n1 n2 d arrived) in
                (ok d ∷ [], 1, Moved-then n n1 n' [] (ok d ∷ []) (datagram ∷ []) [] went took)
          ]
    ]

replicate-add : (a b : ℕ) (d : Bytes) → replicate a d ++ replicate b d ≡ replicate (a + b) d
replicate-add zero b d = let count : b ≡ 0 + b = omega arith in ap (λ k. replicate k d) count
replicate-add (suc a) b d =
    let count : suc (a + b) ≡ suc a + b = omega arith in
    ap (λ t. d ∷ t) (replicate-add a b d) ∙ ap (λ k. replicate k d) count

pub hello_attempts-Replied :
    (left : ℕ) (st : Status) (datagram : Bytes) (n n' : Net) (received : Received)
    → hello_attempts left st datagram n ≡ done received n'
    → Replied n n' datagram received
unfolding hello_attempts
hello_attempts-Replied zero st datagram n n' received h = absurd (ground (arith, h))
hello_attempts-Replied (suc left) st datagram n n' received h =
    elim (retry-done (hello_attempt datagram n) (λ e n1. hello_attempts left e datagram n1) received
      n' h) [
        | inl first ↦ hello_attempt-Replied datagram n n' received first
        | inr (e, n1, lost, later) ↦
            let (skipped, times, before) = hello_attempt-failed datagram n n1 e lost in
            let r = hello_attempts-Replied left e datagram n1 n' received later in
            let all =
              Moved-then n n1 n' skipped (r.skipped ++ ok r.reply ∷ []) (replicate times datagram)
                (replicate r.times datagram) before r.moved in
            record {
              skipped = skipped ++ r.skipped;
              reply = r.reply;
              times = times + r.times;
              moved = record {
                arrived =
                    all.arrived
                    ∙ ap (λ t. t ++ n'.arrivals)
                        (sym (append_assoc skipped r.skipped (ok r.reply ∷ [])));
                went = all.went ∙ ap (λ t. n.sent ++ t) (replicate-add times r.times datagram);
              };
              opened = r.opened;
            }
      ]

-- The transcript of the flight holds the ClientHello, which the datagram carries.
pub client_flight-transcript :
    (crypto : Crypto) (random private_key : Bytes) (flight : Flight)
    → client_flight crypto random private_key ≡ ok flight
    → (hello : Bytes) × (flight.transcript ≡ add empty hello)
      × (Plaintext.serialize hello_record hello max_msg ≡ ok flight.datagram)
unfolding client_flight
client_flight-transcript crypto random private_key flight h =
    let (public_key, e1, h1) = bind-ok (or_bad_arg (crypto.x25519_base private_key)) _ flight h in
    let (body, e2, h2) =
      bind-ok
        (client_hello_serialize (record { random = random; x25519_public_key = public_key }) 512) _
        flight h1 in
    let (wrapped, e3, h3) =
      bind-ok (wrap_and_add empty hs_client_hello 0 body (512 + Header.hdr_len)) _ flight h2 in
    let (datagram, e4, h4) =
      bind-ok (Plaintext.serialize hello_record wrapped.out max_msg) _ flight h3 in
    let same : wrapped.transcript ≡ flight.transcript =
      ap Flight.transcript (ok-injective _ flight h4) in
    (
      wrapped.out,
      sym same
          ∙ wrap_and_add-transcript empty hs_client_hello 0 body (512 + Header.hdr_len) wrapped e3,
      e4 ∙ ap ok (ap Flight.datagram (ok-injective _ flight h4)),
    )
