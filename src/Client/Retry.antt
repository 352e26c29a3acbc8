-- ===== src/Client/Retry.antt =====
-- The loop that sends the ClientHello survives lost and malformed replies.
use nano_dtls.Base.{
  ℕ, zero, suc, ◌<◌, ◌≡◌, refl, ap, ◌∙◌, arith, List, [], ◌∷◌, ◌++◌, Bytes, length, replicate,
  Result, ok, err, fault, Status, truncated,
}
use mathlib.Core.List.{append_assoc}
use nano_dtls.Net.{Net, done, failed, retry, lift, recv, send}
use nano_dtls.Driver.{Received, open_plaintext}
use nano_dtls.Client.Run.{recv_plaintext_handshake, hello_attempt, hello_attempts, max_attempts}

-- A receive that fails, or a datagram that is no handshake record: with the error of the attempt.
abbrev pub Lost : Result Bytes → Type 0
Lost (ok datagram) = (e : Status) × (open_plaintext datagram ≡ err e)
Lost (err e) = Unit
Lost fault = ⊥

abbrev pub AllLost : List (Result Bytes) → Type 0
AllLost [] = Unit
AllLost (r ∷ rs) = Lost r × AllLost rs

-- A socket that sends, with those answers of its receives.
abbrev pub socket : List (Result Bytes) → List (Result Bytes) → List Bytes → Net
socket arrivals randoms sent = record {
  arrivals = arrivals;
  send_results = [];
  randoms = randoms;
  sent = sent;
}

attempt-Lost :
    (datagram : Bytes) (r : Result Bytes) (rs randoms : List (Result Bytes)) (sent : List Bytes)
    → Lost r
    → (e : Status) × (hello_attempt datagram (socket (r ∷ rs) randoms sent)
        ≡ failed e (socket rs randoms (sent ++ datagram ∷ [])))
unfolding recv send recv_plaintext_handshake
attempt-Lost datagram (ok reply) rs randoms sent (e, bad) =
    (e, ap (λ m. lift m (socket rs randoms (sent ++ datagram ∷ []))) bad)
attempt-Lost datagram (err e) rs randoms sent lost = (e, refl)
attempt-Lost datagram fault rs randoms sent lost = absurd lost

attempt-answered :
    (datagram reply : Bytes) (rs randoms : List (Result Bytes)) (sent : List Bytes)
    (received : Received)
    → open_plaintext reply ≡ ok received
    → hello_attempt datagram (socket (ok reply ∷ rs) randoms sent)
      ≡ done received (socket rs randoms (sent ++ datagram ∷ []))
unfolding recv send recv_plaintext_handshake
attempt-answered datagram reply rs randoms sent received opened =
    ap (λ m. lift m (socket rs randoms (sent ++ datagram ∷ []))) opened

-- With more attempts than lost answers, the reply behind them is the result, and one copy of the
-- ClientHello was sent for each answer.
attempts-answered :
    (left : ℕ) (st : Status) (datagram reply : Bytes) (lost rest randoms : List (Result Bytes))
    (sent : List Bytes) (received : Received)
    → AllLost lost
    → length lost < left
    → open_plaintext reply ≡ ok received
    → hello_attempts left st datagram (socket (lost ++ ok reply ∷ rest) randoms sent)
      ≡ done received (socket rest randoms (sent ++ replicate (suc (length lost)) datagram))
unfolding hello_attempts
attempts-answered zero st datagram reply lost rest randoms sent received all few opened =
    absurd (omega arith)
attempts-answered (suc left) st datagram reply [] rest randoms sent received all few opened =
    ap (λ r. retry r (λ e n'. hello_attempts left e datagram n'))
      (attempt-answered datagram reply rest randoms sent received opened)
attempts-answered (suc left) st datagram reply (r ∷ rs) rest randoms sent received all few opened =
    let (e, failing) = attempt-Lost datagram r (rs ++ ok reply ∷ rest) randoms sent all.0 in
    ap (λ x. retry x (λ s n'. hello_attempts left s datagram n')) failing
    ∙ attempts-answered left e datagram reply rs rest randoms (sent ++ datagram ∷ []) received all.1
        (omega arith) opened
    ∙ ap (λ s. done received (socket rest randoms s))
        (append_assoc sent (datagram ∷ []) (replicate (suc (length rs)) datagram))

-- The client sends the same ClientHello again after a timeout, an error of the socket, or a datagram
-- that is no handshake record: where at most four receives go that way before a handshake message
-- arrives, and every send succeeds, the loop returns that message, and has sent the datagram once
-- for each of these answers.
pub hello_attempts-answered :
    (datagram reply : Bytes) (lost rest randoms : List (Result Bytes)) (sent : List Bytes)
    (received : Received)
    → AllLost lost
    → length lost < max_attempts
    → open_plaintext reply ≡ ok received
    → hello_attempts max_attempts truncated datagram (socket (lost ++ ok reply ∷ rest) randoms sent)
      ≡ done received (socket rest randoms (sent ++ replicate (suc (length lost)) datagram))
hello_attempts-answered = attempts-answered max_attempts truncated
