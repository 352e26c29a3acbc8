-- ===== src/Server/Calls.antt =====
-- What the calls of the socket in src/handshake/server.c return.
use nano_dtls.Base.{ℕ, arith, ◌≡◌, ap, ◌∙◌, List, Bytes, Result, ok}
use nano_dtls.Protect.{Unprotected}
use nano_dtls.Net.{Net, done, send}
use nano_dtls.Net.Done.{step-done, lift-done, done-injective}
use nano_dtls.Driver.{Crypto, max_msg, Outgoing}
use nano_dtls.Driver.Accepted.{}
use nano_dtls.Server.{}
use nano_dtls.Server.Run.{send_protected, finished_attempts}
use mathlib.Core.Path.{subst}
use nano_dtls.Base.{zero, suc, inl, inr, [], ◌∷◌, ◌++◌, Status}
use nano_dtls.Protect.{Unprotection, unprotect}
use nano_dtls.Net.{lift, recv}
use nano_dtls.Net.Done.{retry-done, lift-returned}
use nano_dtls.Net.Traffic.{
  Moved, Moved-then, recv-Moved, send-Moved, done-world, lift-world, lift-failed,
}

-- A message was sealed before it was sent.
pub send_protected-done :
    (message : Result Outgoing) (n n' : Net) (o : Outgoing)
    → send_protected message n ≡ done o n'
    → (message ≡ ok o) × Moved n n' [] (o.out ∷ [])
unfolding send_protected
send_protected-done message n n' o h =
    let (out, sealed, h1) = lift-done message _ n n' o h in
    let (u, n1, sent, h2) = step-done (send out.out) _ n n' o h1 in
    let same : out ≡ o = done-injective out o n1 n' h2 in
    (
      sealed ∙ ap ok same,
      subst (λ m. Moved n m [] (o.out ∷ [])) (done-world out o n1 n' h2)
          (subst (λ (x : Outgoing). Moved n n1 [] (x.out ∷ [])) same
            (send-Moved n n1 out.out sent)),
    )

-- The loop skips what does not decrypt, and returns what does.
pub record Awaited (crypto : Crypto) (u : Unprotection) (n n' : Net) (opened : Unprotected)
    : Type 0 where
  pub skipped : List (Result Bytes)
  pub arrival : Bytes
  pub moved : Moved n n' (skipped ++ ok arrival ∷ []) []
  pub decrypted : unprotect crypto.aead u arrival max_msg ≡ ok opened

pub finished_attempts-Awaited :
    (crypto : Crypto) (left : ℕ) (st : Status) (u : Unprotection) (n n' : Net)
    (opened : Unprotected)
    → finished_attempts crypto left st u n ≡ done opened n'
    → Awaited crypto u n n' opened
unfolding finished_attempts
finished_attempts-Awaited crypto zero st u n n' opened h = absurd (ground (arith, h))
finished_attempts-Awaited crypto (suc left) st u n n' opened h =
    let (d, n1, arrived, h1) = step-done recv _ n n' opened h in
    let took : Moved n n1 (ok d ∷ []) [] = recv-Moved n n1 d arrived in
    elim (retry-done (lift (unprotect crypto.aead u d max_msg) n1)
      (λ e m. finished_attempts crypto left e u m) opened n' h1) [
        | inl first ↦ record {
          skipped = [];
          arrival = d;
          moved = subst (λ m. Moved n m (ok d ∷ []) []) (lift-world _ n1 n' opened first) took;
          decrypted = lift-returned _ n1 n' opened first;
        }
        | inr (e, n2, lost, later) ↦
            let r = finished_attempts-Awaited crypto left e u n2 n' opened later in
            let before : Moved n n2 (ok d ∷ []) [] =
              subst (λ m. Moved n m (ok d ∷ []) []) (lift-failed _ n1 n2 e lost) took in
            record {
              skipped = ok d ∷ r.skipped;
              arrival = r.arrival;
              moved =
                  Moved-then n n2 n' (ok d ∷ []) (r.skipped ++ ok r.arrival ∷ []) [] [] before
                    r.moved;
              decrypted = r.decrypted;
            }
      ]
