-- ===== src/Complete/Run.antt =====
-- Both ends run to the end of the handshake.
use nano_dtls.Base.{◌≡◌, refl, ap, List, [], ◌∷◌, ◌++◌, Bytes, truncated}
use nano_dtls.Protect.{Unprotection, unprotection_init}
use nano_dtls.Transcript.{Transcript}
use nano_dtls.KeySchedule.{HandshakeKeys}
use nano_dtls.X509.{Cert}
use nano_dtls.Net.{done, retry, lift}
use nano_dtls.Net.Delivered.{network, step-returns, lift-returns, recv-network, send-network}
use nano_dtls.Driver.{Crypto}
use nano_dtls.Client
use nano_dtls.Client.Run.{exchange_finished, authenticate}
use nano_dtls.Server.{check_config}
use nano_dtls.Server
use nano_dtls.Server.Run.{finished_attempts, await_finished, serve, server_handshake}
use nano_dtls.Server.Run
use nano_dtls.Complete.Hello.{client_session, server_session_of}
use nano_dtls.Complete.Finished.{on_client_finished-opened}
use nano_dtls.Complete.Phases.{
  Conversation, recv_protected_handshake-network, send_protected-network,
}

-- The datagrams of the conversation that the server sends behind its hello.
abbrev pub server_flight :
    {crypto : Crypto} {client : Client.Config} {server : Server.Config} {leaf : Cert}
    {keys : HandshakeKeys} {t : Transcript}
    → Conversation crypto client server leaf keys t
    → List Bytes
server_flight c = c.e1.out.out ∷ c.e2.out.out ∷ c.e3.out.out ∷ c.e4.out.out ∷ []

module _ (crypto : Crypto) (client : Client.Config) (server : Server.Config) (leaf : Cert)
    (keys : HandshakeKeys) (t : Transcript)
    (c : Conversation crypto client server leaf keys t) where
  exchange_finished-runs :
      (rs sent : List Bytes)
      → exchange_finished crypto
          (client_session keys t)
          (record { leaf = leaf; transcript = c.e2.out.transcript })
          c.e3.out.transcript
          c.e3.opened.reader
          (network (c.e4.out.out ∷ []) rs sent)
        ≡ done
            (record { keys = keys; server_leaf = leaf })
            (network [] rs (sent ++ c.e5.out.out ∷ []))
  unfolding exchange_finished
  exchange_finished-runs rs sent =
      step-returns _
        (recv_protected_handshake-network crypto c.e3.opened.reader c.e4.out.out [] rs sent
          c.e4.opened c.e4.arrived)
        (lift-returns _ c.e4.handled
          (lift-returns _ c.e5.sealed (step-returns _ (send-network c.e5.out.out [] rs sent) refl)))

  pub authenticate-runs :
      (rs sent : List Bytes)
      → authenticate crypto client (client_session keys t) (network (server_flight c) rs sent)
        ≡ done
            (record { keys = keys; server_leaf = leaf })
            (network [] rs (sent ++ c.e5.out.out ∷ []))
  unfolding authenticate
  authenticate-runs rs sent =
      step-returns _
        (recv_protected_handshake-network crypto
          (unprotection_init keys.server_write_key keys.server_write_iv 2) c.e1.out.out
          (c.e2.out.out ∷ c.e3.out.out ∷ c.e4.out.out ∷ []) rs sent c.e1.opened c.e1.arrived)
        (lift-returns _ c.e1.handled (
          step-returns _
            (recv_protected_handshake-network crypto c.e1.opened.reader c.e2.out.out
              (c.e3.out.out ∷ c.e4.out.out ∷ []) rs sent c.e2.opened c.e2.arrived)
            (lift-returns _ c.e2.handled (
              step-returns _
                (recv_protected_handshake-network crypto c.e2.opened.reader c.e3.out.out
                  (c.e4.out.out ∷ []) rs sent c.e3.opened c.e3.arrived)
                (lift-returns _ c.e3.handled (exchange_finished-runs rs sent))))))

  await_finished-runs :
      (rs sent : List Bytes)
      → await_finished crypto
          (server_session_of keys t)
          c.e4.out.transcript
          (network (c.e5.out.out ∷ []) rs sent)
        ≡ done keys (network [] rs sent)
  unfolding await_finished finished_attempts
  await_finished-runs rs sent =
      let u : Unprotection = unprotection_init keys.client_write_key keys.client_write_iv 2 in
      let (plain, opened, accepted) =
        on_client_finished-opened crypto u c.e5.out.out keys.client_handshake_traffic_secret
          c.e4.out.transcript c.e5.out.transcript c.e5.opened c.e5.arrived c.e5.handled in
      let waits : finished_attempts crypto Server.Run.max_attempts truncated u
            (network (c.e5.out.out ∷ []) rs sent)
          ≡ done plain (network [] rs sent) =
        step-returns _ (recv-network c.e5.out.out [] rs sent) (
          ap (λ m. retry (lift m (network [] rs sent)) (λ e n'. finished_attempts crypto 7 e u n'))
            opened) in
      step-returns _ waits (lift-returns _ accepted refl)

  pub serve-runs :
      (rs sent : List Bytes)
      → serve crypto server (server_session_of keys t) (network (c.e5.out.out ∷ []) rs sent)
        ≡ done keys (
            network [] rs (
              sent
              ++ c.e1.out.out ∷ []
              ++ c.e2.out.out ∷ []
              ++ c.e3.out.out ∷ []
              ++ c.e4.out.out ∷ []))
  unfolding serve
  serve-runs rs sent =
      let reply : List Bytes = c.e5.out.out ∷ [] in
      let sent1 : List Bytes = sent ++ c.e1.out.out ∷ [] in
      let sent2 : List Bytes = sent1 ++ c.e2.out.out ∷ [] in
      let sent3 : List Bytes = sent2 ++ c.e3.out.out ∷ [] in
      step-returns _ (send_protected-network _ reply rs sent c.e1.out c.e1.sealed) (
        step-returns _ (send_protected-network _ reply rs sent1 c.e2.out c.e2.sealed) (
          step-returns _ (send_protected-network _ reply rs sent2 c.e3.out c.e3.sealed) (
            step-returns _ (send_protected-network _ reply rs sent3 c.e4.out c.e4.sealed)
              (await_finished-runs rs (sent3 ++ c.e4.out.out ∷ [])))))
