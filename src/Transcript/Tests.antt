-- ===== src/Transcript/Tests.antt =====
-- A transcript of two messages.
use nano_dtls.Base.{◌≡◌, [], ◌∷◌}
use nano_dtls.Sha256.{sha256}
use nano_dtls.Transcript.{empty, snapshot}
use nano_dtls.Transcript.Snapshot.{add_all, snapshot-add_all}

snapshot-add_all_example :
    snapshot (add_all ((1 ∷ 2 ∷ []) ∷ (3 ∷ []) ∷ []) empty) ≡ sha256 (1 ∷ 2 ∷ 3 ∷ [])
snapshot-add_all_example = snapshot-add_all ((1 ∷ 2 ∷ []) ∷ (3 ∷ []) ∷ [])
