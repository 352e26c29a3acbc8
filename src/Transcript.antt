-- ===== src/Transcript.antt =====
-- The transcript hash, src/handshake/transcript.c. A snapshot works on a copy of the context, so it
-- leaves the transcript as it is.
pub mod Snapshot
mod Tests
use nano_dtls.Base.{Bytes}
use nano_dtls.Sha256.{Ctx, init, update, final}

-- `nd_transcript`
pub record Transcript : Type 0 where
  pub ctx : Ctx

abbrev pub empty : Transcript
empty = record { ctx = init }

unfoldable pub add : Transcript → Bytes → Transcript
add t msg = record { ctx = update t.ctx msg }

unfoldable pub snapshot : Transcript → Bytes
snapshot t = final t.ctx
