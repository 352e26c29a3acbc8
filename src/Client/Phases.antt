-- ===== src/Client/Phases.antt =====
-- The phases of `nd_client_handshake` behind the ServerHello: what each has checked, and what went
-- over the socket.
use mathlib.Core.Path.{subst}
use nano_dtls.Base.{◌≡◌, ap, ◌∙◌, List, [], ◌∷◌, Bytes}
use nano_dtls.Protect.{Unprotection}
use nano_dtls.Transcript.{Transcript, add, empty}
use nano_dtls.Transcript.Snapshot.{add_all}
use nano_dtls.Net.{Net, done, send}
use nano_dtls.Net.Done.{step-done, lift-done, done-injective}
use nano_dtls.Driver.{Crypto}
use nano_dtls.Driver.Accepted.{FinishedAccepted}
use nano_dtls.Client.{
  Config, Session, Trusted, on_encrypted_extensions, on_certificate, on_certificate_verify,
  on_finished, client_finished,
}
use nano_dtls.Client.Run.{ClientResult, exchange_finished, authenticate, recv_protected_handshake}
use nano_dtls.Client.Messages.{recv_protected_handshake-message}
use nano_dtls.Client.Identity.{
  ExtensionsAccepted, CertificateAccepted, VerifyAccepted,
  on_encrypted_extensions-ExtensionsAccepted, on_certificate-CertificateAccepted,
  on_certificate_verify-VerifyAccepted, on_finished-FinishedAccepted,
}
use nano_dtls.Base.{refl, ok}
use nano_dtls.Net.Traffic.{Moved, Moved-then, send-Moved, done-world}
use nano_dtls.Driver.Accepted.{Opening}
use nano_dtls.Client.Messages.{recv_protected_handshake-Moved}

-- The last phase.
pub record Finished (crypto : Crypto) (session : Session) (trusted : Trusted)
    (reader : Unprotection) (messages : List Bytes) (n n' : Net) (result : ClientResult)
    : Type 0 where
  pub finished : Bytes
  pub arrival : Bytes
  pub out : Bytes
  pub moved : Moved n n' (ok arrival ∷ []) (out ∷ [])
  pub opening : Opening crypto reader ((arrival, finished) ∷ [])
  pub finished_accepted :
      FinishedAccepted session.keys.server_handshake_traffic_secret messages finished
  pub keys : session.keys ≡ result.keys
  pub leaf : trusted.leaf ≡ result.server_leaf

exchange_finished-Finished :
    (crypto : Crypto) (session : Session) (trusted : Trusted) (t2 : Transcript)
    (reader : Unprotection) (messages : List Bytes) (n n' : Net) (result : ClientResult)
    → t2 ≡ add_all messages empty
    → exchange_finished crypto session trusted t2 reader n ≡ done result n'
    → Finished crypto session trusted reader messages n n' result
unfolding exchange_finished
exchange_finished-Finished crypto session trusted t2 reader messages n n' result so_far h =
    let (o, n1, e1, h1) = step-done (recv_protected_handshake crypto reader) _ n n' result h in
    let secret : Bytes = session.keys.server_handshake_traffic_secret in
    let (t3, e2, h2) = lift-done (on_finished secret t2 o.received) _ n1 n' result h1 in
    let (out, e3, h3) = lift-done (client_finished crypto session t3) _ n1 n' result h2 in
    let (u, n2, e4, h4) = step-done (send out.out) _ n1 n' result h3 in
    let returned = done-injective _ result n2 n' h4 in
    let parsed = recv_protected_handshake-message crypto reader n n1 o e1 in
    let (arrival, took, opened) = recv_protected_handshake-Moved crypto reader n n1 o e1 in
    let gave : Moved n1 n' [] (out.out ∷ []) =
      subst (λ m. Moved n1 m [] (out.out ∷ [])) (done-world _ result n2 n' h4)
        (send-Moved n1 n2 out.out e4) in
    record {
      finished = o.received.message;
      arrival = arrival;
      out = out.out;
      moved = Moved-then n n1 n' (ok arrival ∷ []) [] [] (out.out ∷ []) took gave;
      opening = (o, opened, refl, tt);
      finished_accepted =
          (on_finished-FinishedAccepted secret t2 o.received t3 messages so_far parsed e2).0;
      keys = ap ClientResult.keys returned;
      leaf = ap ClientResult.server_leaf returned;
    }

-- The phases from EncryptedExtensions on.
pub record Identified (crypto : Crypto) (config : Config) (session : Session)
    (hello server_hello : Bytes) (n n' : Net) (result : ClientResult) : Type 0 where
  pub extensions : Bytes
  pub certificate : Bytes
  pub verify : Bytes
  pub finished : Bytes
  pub d1 : Bytes
  pub d2 : Bytes
  pub d3 : Bytes
  pub d4 : Bytes
  pub out : Bytes
  pub moved : Moved n n' (ok d1 ∷ ok d2 ∷ ok d3 ∷ ok d4 ∷ []) (out ∷ [])
  pub opening :
      Opening crypto session.server_read
        ((d1, extensions) ∷ (d2, certificate) ∷ (d3, verify) ∷ (d4, finished) ∷ [])
  pub trusted : Trusted
  pub extensions_accepted : ExtensionsAccepted extensions
  pub certificate_accepted : CertificateAccepted crypto config certificate trusted.leaf
  pub verify_accepted :
      VerifyAccepted crypto trusted.leaf
        (hello ∷ server_hello ∷ extensions ∷ certificate ∷ [])
        verify
  pub finished_accepted :
      FinishedAccepted session.keys.server_handshake_traffic_secret
        (hello ∷ server_hello ∷ extensions ∷ certificate ∷ verify ∷ [])
        finished
  pub keys : session.keys ≡ result.keys
  pub leaf : trusted.leaf ≡ result.server_leaf

pub authenticate-Identified :
    (crypto : Crypto) (config : Config) (session : Session) (hello server_hello : Bytes)
    (n n' : Net) (result : ClientResult)
    → session.transcript ≡ add_all (hello ∷ server_hello ∷ []) empty
    → authenticate crypto config session n ≡ done result n'
    → Identified crypto config session hello server_hello n n' result
unfolding authenticate
authenticate-Identified crypto config session hello server_hello n n' result so_far h =
    let u0 : Unprotection = session.server_read in
    let (o1, n1, e1, h1) = step-done (recv_protected_handshake crypto u0) _ n n' result h in
    let (t1, e2, h2) =
      lift-done (on_encrypted_extensions session.transcript o1.received) _ n1 n' result h1 in
    let (o2, n2, e3, h3) =
      step-done (recv_protected_handshake crypto o1.reader) _ n1 n' result h2 in
    let (trusted, e4, h4) =
      lift-done (on_certificate crypto config t1 o2.received) _ n2 n' result h3 in
    let (o3, n3, e5, h5) =
      step-done (recv_protected_handshake crypto o2.reader) _ n2 n' result h4 in
    let (t2, e6, h6) =
      lift-done (on_certificate_verify crypto trusted o3.received) _ n3 n' result h5 in
    let (extensions, s1) =
      on_encrypted_extensions-ExtensionsAccepted session.transcript o1.received t1
        (recv_protected_handshake-message crypto u0 n n1 o1 e1) e2 in
    let (certificate, s2) =
      on_certificate-CertificateAccepted crypto config t1 o2.received trusted
        (recv_protected_handshake-message crypto o1.reader n1 n2 o2 e3) e4 in
    let before = hello ∷ server_hello ∷ o1.received.message ∷ o2.received.message ∷ [] in
    let known : trusted.transcript ≡ add_all before empty =
      s2 ∙ ap (λ t. add t o2.received.message) (s1 ∙ ap (λ t. add t o1.received.message) so_far) in
    let (verify, s3) =
      on_certificate_verify-VerifyAccepted crypto trusted o3.received t2 before known
        (recv_protected_handshake-message crypto o2.reader n2 n3 o3 e5) e6 in
    let last =
      exchange_finished-Finished crypto session trusted t2 o3.reader
        (hello ∷ server_hello ∷ o1.received.message ∷ o2.received.message ∷ o3.received.message
          ∷ [])
        n3 n' result (s3 ∙ ap (λ t. add t o3.received.message) known) h6 in
    let (d1, m1, opened1) = recv_protected_handshake-Moved crypto u0 n n1 o1 e1 in
    let (d2, m2, opened2) = recv_protected_handshake-Moved crypto o1.reader n1 n2 o2 e3 in
    let (d3, m3, opened3) = recv_protected_handshake-Moved crypto o2.reader n2 n3 o3 e5 in
    record {
      extensions = o1.received.message;
      certificate = o2.received.message;
      verify = o3.received.message;
      finished = last.finished;
      d1 = d1;
      d2 = d2;
      d3 = d3;
      d4 = last.arrival;
      out = last.out;
      moved =
          Moved-then n n1 n' (ok d1 ∷ []) (ok d2 ∷ ok d3 ∷ ok last.arrival ∷ []) [] (last.out ∷ [])
            m1
            (Moved-then n1 n2 n' (ok d2 ∷ []) (ok d3 ∷ ok last.arrival ∷ []) [] (last.out ∷ []) m2 (
              Moved-then n2 n3 n' (ok d3 ∷ []) (ok last.arrival ∷ []) [] (last.out ∷ []) m3
                last.moved));
      opening = (o1, opened1, refl, (o2, opened2, refl, (o3, opened3, refl, last.opening)));
      trusted = trusted;
      extensions_accepted = extensions;
      certificate_accepted = certificate;
      verify_accepted = verify;
      finished_accepted = last.finished_accepted;
      keys = last.keys;
      leaf = last.leaf;
    }
