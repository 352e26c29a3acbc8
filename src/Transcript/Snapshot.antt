-- ===== src/Transcript/Snapshot.antt =====
-- A snapshot is the hash of the messages so far.
use nano_dtls.Base.{◌≡◌, refl, ap, sym, ◌∙◌, List, [], ◌∷◌, Bytes}
use nano_dtls.Sha256.{Ctx, sha256, final, init}
use nano_dtls.Sha256.Padding.{feed, joined, final-feed, sha256-standard}
use nano_dtls.Transcript.{Transcript, empty, add, snapshot}

abbrev pub add_all : List Bytes → Transcript → Transcript
add_all [] t = t
add_all (m ∷ ms) t = add_all ms (add t m)

add_all-feed : (ms : List Bytes) (c : Ctx) → (add_all ms (record { ctx = c })).ctx ≡ feed ms c
unfolding add
add_all-feed [] c = refl
add_all-feed (m ∷ ms) c = add_all-feed ms ((add (record { ctx = c }) m).ctx)

-- After any messages the snapshot is the SHA-256 hash of their concatenation.
pub snapshot-add_all : (ms : List Bytes) → snapshot (add_all ms empty) ≡ sha256 (joined ms)
unfolding snapshot
snapshot-add_all ms =
    ap final (add_all-feed ms init) ∙ final-feed ms ∙ sym (sha256-standard (joined ms))
