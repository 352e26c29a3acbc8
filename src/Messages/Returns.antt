-- ===== src/Messages/Returns.antt =====
-- That the parsers of the messages return: the loop of `nd_certificate_parse` ends.
use nano_dtls.Base.{ℕ, zero, suc, ◌<◌, ◌≢◌, arith, not, List, [], ◌∷◌, ◌++◌, ltb, ◌==◌, ◌-◌}
use nano_dtls.Base.{Bytes, length, fault, truncated, bad_length, bad_arg, unsupported}
use nano_dtls.Wire.{Reader, run, r_init}
use nano_dtls.Wire.Progress.{
  Moves, then-Moves, round-Moves, value-returns, pure-Moves, r_bytes-Moves, r_skip-Moves,
  r_u8-Moves, r_u16-Moves, r_u24-Moves, refuse-Moves, lift-Moves,
}
use nano_dtls.Messages.{max_certs, parse_entries, certificate_parse}

parse_entries-Moves :
    (fuel : ℕ) (found : List Bytes) (r : Reader)
    → length r.buf - r.pos < fuel
    → Moves 0 r (parse_entries fuel found r)
parse_entries-Moves zero found r enough = absurd (omega arith)
parse_entries-Moves (suc fuel) found r enough = round-Moves r _ found λ inside.
    then-Moves 0 r _ _ (refuse-Moves (not (ltb (length found) max_certs)) unsupported r)
      λ _ s same far. then-Moves 3 s _ _ (r_u24-Moves truncated s) λ n t same' far'.
        then-Moves n t _ _ (r_bytes-Moves bad_length n t) λ cert u same'' far''.
          then-Moves 2 u _ _ (r_u16-Moves truncated u) λ k v same''' far'''.
            then-Moves k v _ _ (r_skip-Moves bad_length k v) λ _ w same'''' far''''.
              parse_entries-Moves fuel (found ++ cert ∷ []) w
                (rw (same'''', same''', same'', same', same) (omega arith))

pub certificate_parse-returns : (buf : Bytes) → certificate_parse buf ≢ fault
unfolding certificate_parse
certificate_parse-returns buf = value-returns 0 (r_init buf) _ (
    then-Moves 1 (r_init buf) _ _ (r_u8-Moves truncated (r_init buf)) λ n s _ _.
      then-Moves n s _ _ (r_skip-Moves bad_length n s) λ _ t _ _.
        then-Moves 3 t _ _ (r_u24-Moves truncated t) λ k u _ _.
          then-Moves k u _ _ (r_bytes-Moves bad_length k u) λ list_data v _ _.
            then-Moves 0 v _ _
              (lift-Moves (run list_data (parse_entries (suc (length list_data)) [])) v (
                value-returns 0 (r_init list_data) _ (
                  parse_entries-Moves (suc (length list_data)) [] (r_init list_data)
                    (omega arith))))
              λ certs w _ _.
                then-Moves 0 w _ _ (refuse-Moves (length certs == 0) bad_arg w)
                  λ _ x _ _. pure-Moves certs x)
