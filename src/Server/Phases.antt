-- ===== src/Server/Phases.antt =====
-- The phases of `nd_server_handshake` behind the ServerHello: what went over the socket, and what was
-- checked.
use nano_dtls.Server.Calls.{send_protected-done, Awaited, finished_attempts-Awaited}
use nano_dtls.Base.{◌≡◌, ap, ◌∙◌, List, [], ◌∷◌, Bytes, ok, truncated}
use mathlib.Core.Path.{subst}
use nano_dtls.Transcript.{Transcript, add, empty}
use nano_dtls.Transcript.Snapshot.{add_all}
use nano_dtls.KeySchedule.{HandshakeKeys}
use nano_dtls.Net.{Net, done}
use nano_dtls.Net.Done.{step-done, lift-done, done-injective}
use nano_dtls.Driver.{Crypto}
use nano_dtls.Driver.Accepted.{FinishedAccepted}
use nano_dtls.Server.{
  Config, Session, server_hello, encrypted_extensions, certificate, certificate_verify,
  server_finished, on_client_finished,
}
use nano_dtls.Server.Run.{send_protected, finished_attempts, max_attempts, await_finished, serve}
use nano_dtls.Server.Messages.{
  encrypted_extensions-Grown, certificate-Grown, certificate_verify-Grown, server_finished-Grown,
  on_client_finished-FinishedAccepted,
}
use nano_dtls.Base.{refl, ◌++◌, Result}
use nano_dtls.Protect.{Unprotected, unprotect}
use nano_dtls.Net.Traffic.{Moved, Moved-then, done-world}
use nano_dtls.Driver.{max_msg}
use nano_dtls.Driver.Accepted.{Sealing}
use nano_dtls.Server.Messages.{}

-- The last phase.
pub record Answered (crypto : Crypto) (session : Session) (messages : List Bytes) (n n' : Net)
    (keys : HandshakeKeys) : Type 0 where
  pub opened : Unprotected
  pub awaited : Awaited crypto session.client_read n n' opened
  pub accepted :
      FinishedAccepted session.keys.client_handshake_traffic_secret messages opened.plaintext
  pub returned : session.keys ≡ keys

await_finished-Answered :
    (crypto : Crypto) (session : Session) (t : Transcript) (messages : List Bytes) (n n' : Net)
    (keys : HandshakeKeys)
    → t ≡ add_all messages empty
    → await_finished crypto session t n ≡ done keys n'
    → Answered crypto session messages n n' keys
unfolding await_finished
await_finished-Answered crypto session t messages n n' keys so_far h =
    let secret : Bytes = session.keys.client_handshake_traffic_secret in
    let (opened, n1, e1, h1) =
      step-done (finished_attempts crypto max_attempts truncated session.client_read) _ n n' keys
        h in
    let (u, e2, h2) = lift-done (on_client_finished secret t opened) _ n1 n' keys h1 in
    record {
      opened = opened;
      awaited =
          subst (λ m. Awaited crypto session.client_read n m opened)
            (done-world session.keys keys n1 n' h2)
            (finished_attempts-Awaited crypto max_attempts truncated session.client_read n n1 opened
              e1);
      accepted = on_client_finished-FinishedAccepted secret t opened messages so_far e2;
      returned = done-injective session.keys keys n1 n' h2;
    }

-- The phases from EncryptedExtensions on.
pub record Served (crypto : Crypto) (session : Session) (hello server_hello : Bytes) (n n' : Net)
    (keys : HandshakeKeys) : Type 0 where
  pub extensions : Bytes
  pub certificate : Bytes
  pub verify : Bytes
  pub finished : Bytes
  pub d1 : Bytes
  pub d2 : Bytes
  pub d3 : Bytes
  pub d4 : Bytes
  pub skipped : List (Result Bytes)
  pub arrival : Bytes
  pub opened : Unprotected
  pub moved : Moved n n' (skipped ++ ok arrival ∷ []) (d1 ∷ d2 ∷ d3 ∷ d4 ∷ [])
  pub sealing :
      Sealing crypto session.server_write
        ((d1, extensions) ∷ (d2, certificate) ∷ (d3, verify) ∷ (d4, finished) ∷ [])
  pub decrypted : unprotect crypto.aead session.client_read arrival max_msg ≡ ok opened
  pub accepted :
      FinishedAccepted session.keys.client_handshake_traffic_secret
        (hello ∷ server_hello ∷ extensions ∷ certificate ∷ verify ∷ finished ∷ [])
        opened.plaintext
  pub returned : session.keys ≡ keys

pub serve-Served :
    (crypto : Crypto) (config : Config) (session : Session) (hello server_hello : Bytes)
    (n n' : Net) (keys : HandshakeKeys)
    → session.transcript ≡ add_all (hello ∷ server_hello ∷ []) empty
    → serve crypto config session n ≡ done keys n'
    → Served crypto session hello server_hello n n' keys
unfolding serve
serve-Served crypto config session hello server_hello n n' keys so_far h =
    let m1 = encrypted_extensions crypto session.server_write session.transcript in
    let (o1, n1, e1, h1) = step-done (send_protected m1) _ n n' keys h in
    let m2 = certificate crypto config o1.writer o1.transcript in
    let (o2, n2, e2, h2) = step-done (send_protected m2) _ n1 n' keys h1 in
    let m3 = certificate_verify crypto config o2.writer o2.transcript in
    let (o3, n3, e3, h3) = step-done (send_protected m3) _ n2 n' keys h2 in
    let secret = session.keys.server_handshake_traffic_secret in
    let m4 = server_finished crypto secret o3.writer o3.transcript in
    let (o4, n4, e4, h4) = step-done (send_protected m4) _ n3 n' keys h3 in
    let (made1, moved1) = send_protected-done m1 n n1 o1 e1 in
    let (made2, moved2) = send_protected-done m2 n1 n2 o2 e2 in
    let (made3, moved3) = send_protected-done m3 n2 n3 o3 e3 in
    let (made4, moved4) = send_protected-done m4 n3 n4 o4 e4 in
    let (extensions, s1, p1) =
      encrypted_extensions-Grown crypto session.server_write session.transcript o1 made1 in
    let (cert, s2, p2) = certificate-Grown crypto config o1.writer o1.transcript o2 made2 in
    let (verify, s3, p3) =
      certificate_verify-Grown crypto config o2.writer o2.transcript o3 made3 in
    let (finished, s4, p4) = server_finished-Grown crypto secret o3.writer o3.transcript o4 made4 in
    let known : o4.transcript
        ≡ add_all (hello ∷ server_hello ∷ extensions ∷ cert ∷ verify ∷ finished ∷ []) empty =
      s4
      ∙ ap (λ t. add t finished)
          (s3
            ∙ ap (λ t. add t verify)
                (s2 ∙ ap (λ t. add t cert) (s1 ∙ ap (λ t. add t extensions) so_far))) in
    let last =
      await_finished-Answered crypto session o4.transcript
        (hello ∷ server_hello ∷ extensions ∷ cert ∷ verify ∷ finished ∷ []) n4 n' keys known h4 in
    let answers = last.awaited.skipped ++ ok last.awaited.arrival ∷ [] in
    record {
      extensions = extensions;
      certificate = cert;
      verify = verify;
      finished = finished;
      d1 = o1.out;
      d2 = o2.out;
      d3 = o3.out;
      d4 = o4.out;
      skipped = last.awaited.skipped;
      arrival = last.awaited.arrival;
      opened = last.opened;
      moved = Moved-then n n1 n' [] answers (o1.out ∷ []) (o2.out ∷ o3.out ∷ o4.out ∷ []) moved1 (
          Moved-then n1 n2 n' [] answers (o2.out ∷ []) (o3.out ∷ o4.out ∷ []) moved2 (
            Moved-then n2 n3 n' [] answers (o3.out ∷ []) (o4.out ∷ []) moved3
              (Moved-then n3 n4 n' [] answers (o4.out ∷ []) [] moved4 last.awaited.moved)));
      sealing = (_, p1, refl, (_, p2, refl, (_, p3, refl, (_, p4, refl, tt))));
      decrypted = last.awaited.decrypted;
      accepted = last.accepted;
      returned = last.returned;
    }
