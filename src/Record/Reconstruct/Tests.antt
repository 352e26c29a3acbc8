-- ===== src/Record/Reconstruct/Tests.antt =====
-- The counters recovered at concrete values, wrap-arounds among them.
use nano_dtls.Base.{◌≡◌, refl, inl, arith}
use nano_dtls.Record.Reconstruct.{
  epoch_round, reconstruct_epoch, consider, sequence_round, reconstruct_sequence_number,
}
use nano_dtls.Record.Reconstruct.Epoch.{reconstruct_epoch_recovers}
use nano_dtls.Record.Reconstruct.Sequence.{reconstruct_sequence_recovers}

epoch_runs :
    (reconstruct_epoch 0 3 ≡ 3) × (reconstruct_epoch 7 0 ≡ 8) × (reconstruct_epoch 65535 0 ≡ 65532)
unfolding reconstruct_epoch epoch_round
epoch_runs = (refl, refl, refl)

-- Two above the highest known epoch is as close as two below it, and the lower one wins.
epoch_tie : reconstruct_epoch 4 2 ≡ 2
unfolding reconstruct_epoch epoch_round
epoch_tie = refl

sequence_runs :
    (reconstruct_sequence_number 255 0 8 ≡ 256) × (reconstruct_sequence_number 256 255 8 ≡ 255)
unfolding reconstruct_sequence_number sequence_round consider
sequence_runs = (refl, refl)

reconstruct_epoch_recovers_example : reconstruct_epoch 5 3 ≡ 3
reconstruct_epoch_recovers_example =
    reconstruct_epoch_recovers 5 3 (omega arith) (omega arith) (omega arith) (omega arith)

reconstruct_sequence_recovers_example : reconstruct_sequence_number 255 1 8 ≡ 257
reconstruct_sequence_recovers_example =
    reconstruct_sequence_recovers 255 257 8 (inl refl) (omega arith) (omega arith) (omega arith)
      (omega arith)
