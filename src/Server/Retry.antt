-- ===== src/Server/Retry.antt =====
-- The loop that waits for the client's Finished skips what does not decrypt.
use nano_dtls.Base.{
  ℕ, zero, suc, ◌<◌, ◌≡◌, ap, ◌∙◌, arith, List, [], ◌∷◌, ◌++◌, Bytes, length, ok, err, Status,
  truncated,
}
use nano_dtls.Protect.{Unprotection, Unprotected, unprotect}
use nano_dtls.Net.{done, retry, lift}
use nano_dtls.Net.Delivered.{network, step-returns, recv-network}
use nano_dtls.Driver.{Crypto, max_msg}
use nano_dtls.Server.Run.{finished_attempts, max_attempts}

-- None of these datagrams decrypts.
abbrev pub AllStale : Crypto → Unprotection → List Bytes → Type 0
AllStale crypto u [] = Unit
AllStale crypto u (d ∷ ds) =
    ((e : Status) × (unprotect crypto.aead u d max_msg ≡ err e)) × AllStale crypto u ds

attempts-skip :
    (crypto : Crypto) (left : ℕ) (st : Status) (u : Unprotection) (stale : List Bytes)
    (datagram : Bytes) (rest randoms sent : List Bytes) (plain : Unprotected)
    → AllStale crypto u stale
    → length stale < left
    → unprotect crypto.aead u datagram max_msg ≡ ok plain
    → finished_attempts crypto left st u (network (stale ++ datagram ∷ rest) randoms sent)
      ≡ done plain (network rest randoms sent)
unfolding finished_attempts
attempts-skip crypto zero st u stale datagram rest randoms sent plain all few opened =
    absurd (omega arith)
attempts-skip crypto (suc left) st u [] datagram rest randoms sent plain all few opened =
    step-returns _ (recv-network datagram rest randoms sent) (
      ap
        (λ m.
          retry (lift m (network rest randoms sent)) (λ e n'. finished_attempts crypto left e u n'))
        opened)
attempts-skip crypto (suc left) st u (d ∷ ds) datagram rest randoms sent plain all few opened =
    let (e, bad) = all.0 in
    let later : List Bytes = ds ++ datagram ∷ rest in
    step-returns _ (recv-network d later randoms sent) (
      ap
        (λ m.
          retry (lift m (network later randoms sent))
            (λ s n'. finished_attempts crypto left s u n'))
        bad
      ∙ attempts-skip crypto left e u ds datagram rest randoms sent plain all.1 (omega arith)
          opened)

-- Datagrams that do not decrypt, as the copies of a ClientHello that a client has sent again, do not
-- end the handshake: where at most seven of them come before one that does, the server's loop skips
-- them and returns what that one decrypts to, with the state of the reader unchanged by the others.
pub finished_attempts-skip :
    (crypto : Crypto) (u : Unprotection) (stale : List Bytes) (datagram : Bytes)
    (rest randoms sent : List Bytes) (plain : Unprotected)
    → AllStale crypto u stale
    → length stale < max_attempts
    → unprotect crypto.aead u datagram max_msg ≡ ok plain
    → finished_attempts crypto max_attempts truncated u
        (network (stale ++ datagram ∷ rest) randoms sent)
      ≡ done plain (network rest randoms sent)
finished_attempts-skip crypto = attempts-skip crypto max_attempts truncated
