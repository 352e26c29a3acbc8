-- ===== src/Hello/Returns.antt =====
-- That the parsers of the messages return.
use nano_dtls.Base.{
  ℕ, zero, suc, ◌-◌, ◌<◌, ◌≢◌, refl, arith, Bool, false, not, Option, none, some, ◌==◌, ◌!=◌, ◌||◌,
  ◌&&◌, if◌then◌else◌,
}
use nano_dtls.Base.{Bytes, length, get_or, be16, fault, truncated, bad_length, unsupported}
use nano_dtls.Wire.{Reader, run, r_init}
use nano_dtls.Wire.Progress.{
  Moves, then-Moves, round-Moves, value-returns, pure-Moves, r_bytes-Moves, r_skip-Moves,
  r_u8-Moves, r_u16-Moves, refuse-Moves, lift-Moves,
}
use nano_dtls.Hello.{
  random_len, x25519_len, cipher_suite, group_x25519, dtls_1_3_version, find_extension,
}
use nano_dtls.Hello.Parse.{
  needed, extension, server_share, server_head, server_extensions, server_hello_parse, suites,
  check_versions, shares, client_shares, client_head, client_extensions, client_hello_parse,
}
use nano_dtls.Hello.Extensions.{find_extension-returns}

needed-returns : {A : Type 0} (x : Option A) → needed x ≢ fault
needed-returns none same = absurd (ground (arith, same))
needed-returns (some a) same = absurd (ground (arith, same))

extension-Moves : (block : Bytes) (want : ℕ) (r : Reader) → Moves 0 r (extension block want r)
extension-Moves block want r =
    then-Moves 0 r _ _
      (lift-Moves (find_extension block want) r (find_extension-returns block want))
      λ x s _ _. lift-Moves (needed x) s (needed-returns x)

server_head-Moves : (r : Reader) → Moves 0 r (server_head r)
server_head-Moves r = then-Moves 2 r _ _ (r_u16-Moves truncated r) λ _ s _ _.
    then-Moves random_len s _ _ (r_bytes-Moves truncated random_len s) λ random t _ _.
      then-Moves 1 t _ _ (r_u8-Moves truncated t) λ n u _ _.
        then-Moves n u _ _ (r_skip-Moves truncated n u) λ _ v _ _.
          then-Moves 2 v _ _ (r_u16-Moves truncated v) λ suite w _ _.
            then-Moves 1 w _ _ (r_u8-Moves truncated w) λ _ x _ _. (refl, omega arith)

server_share-Moves : (r : Reader) → Moves 0 r (server_share r)
server_share-Moves r = then-Moves 2 r _ _ (r_u16-Moves unsupported r) λ group s _ _.
    then-Moves 2 s _ _ (r_u16-Moves unsupported s) λ n t _ _.
      then-Moves n t _ _ (r_bytes-Moves unsupported n t) λ key u _ _.
        then-Moves 0 u _ _ (refuse-Moves (group != group_x25519 || n != x25519_len) unsupported u)
          λ _ v _ _. pure-Moves key v

server_extensions-Moves : (block : Bytes) (r : Reader) → Moves 0 r (server_extensions block r)
server_extensions-Moves block r = then-Moves 0 r _ _ (extension-Moves block 43 r) λ sv s _ _.
    then-Moves 0 s _ _ (refuse-Moves (length sv != 2) unsupported s) λ _ t _ _.
      then-Moves 0 t _ _
        (refuse-Moves (be16 (get_or sv 0 0) (get_or sv 1 0) != dtls_1_3_version) unsupported t)
        λ _ u _ _. then-Moves 0 u _ _ (extension-Moves block 51 u) λ ks v _ _.
          then-Moves 0 v _ _
            (lift-Moves (run ks server_share) v
              (value-returns 0 (r_init ks) _ (server_share-Moves (r_init ks))))
            λ key w _ _. (refl, omega arith)

server_hello_parse-returns : (buf : Bytes) → server_hello_parse buf ≢ fault
unfolding server_hello_parse
server_hello_parse-returns buf = value-returns 0 (r_init buf) _ (
    then-Moves 0 (r_init buf) _ _ (server_head-Moves (r_init buf)) λ head s _ _.
      then-Moves 2 s _ _ (r_u16-Moves truncated s) λ n t _ _.
        then-Moves n t _ _ (r_bytes-Moves bad_length n t) λ block u _ _.
          then-Moves 0 u _ _ (server_extensions-Moves block u) λ found v _ _. (refl, omega arith))

suites-Moves :
    (fuel : ℕ) (found : Bool) (r : Reader)
    → length r.buf - r.pos < fuel
    → Moves 0 r (suites fuel found r)
suites-Moves zero found r enough = absurd (omega arith)
suites-Moves (suc fuel) found r enough = round-Moves r _ found λ inside.
    then-Moves 2 r _ _ (r_u16-Moves bad_length r) λ suite s same far.
      suites-Moves fuel (found || suite == cipher_suite) s (rw same (omega arith))

shares-Moves :
    (fuel : ℕ) (found : Option Bytes) (r : Reader)
    → length r.buf - r.pos < fuel
    → Moves 0 r (shares fuel found r)
shares-Moves zero found r enough = absurd (omega arith)
shares-Moves (suc fuel) found r enough = round-Moves r _ found λ inside.
    then-Moves 2 r _ _ (r_u16-Moves unsupported r) λ group s same far.
      then-Moves 2 s _ _ (r_u16-Moves unsupported s) λ n t same' far'.
        then-Moves n t _ _ (r_bytes-Moves unsupported n t) λ key u same'' far''.
          shares-Moves fuel (if group == group_x25519 && n == x25519_len then some key else found) u
            (rw (same'', same', same) (omega arith))

client_shares-Moves : (r : Reader) → Moves 0 r (client_shares r)
client_shares-Moves r = then-Moves 2 r _ _ (r_u16-Moves unsupported r) λ n s _ _.
    then-Moves n s _ _ (r_bytes-Moves unsupported n s) λ list t _ _.
      then-Moves 0 t _ _
        (lift-Moves (run list (shares (suc (length list)) none)) t (
          value-returns 0 (r_init list) _
            (shares-Moves (suc (length list)) none (r_init list) (omega arith))))
        λ x u _ _. lift-Moves (needed x) u (needed-returns x)

client_head-Moves : (r : Reader) → Moves 0 r (client_head r)
client_head-Moves r = then-Moves 2 r _ _ (r_u16-Moves truncated r) λ _ s _ _.
    then-Moves random_len s _ _ (r_bytes-Moves truncated random_len s) λ random t _ _.
      then-Moves 1 t _ _ (r_u8-Moves truncated t) λ n u _ _.
        then-Moves n u _ _ (r_skip-Moves truncated n u) λ _ v _ _.
          then-Moves 1 v _ _ (r_u8-Moves truncated v) λ k w _ _.
            then-Moves k w _ _ (r_skip-Moves truncated k w) λ _ x _ _.
              then-Moves 2 x _ _ (r_u16-Moves truncated x) λ m y _ _.
                then-Moves m y _ _ (r_bytes-Moves bad_length m y) λ list z _ _.
                  then-Moves 0 z _ _
                    (lift-Moves (run list (suites (suc (length list)) false)) z (
                      value-returns 0 (r_init list) _
                        (suites-Moves (suc (length list)) false (r_init list) (omega arith))))
                    λ found a _ _.
                      then-Moves 0 a _ _ (refuse-Moves (not found) unsupported a) λ _ b _ _.
                        then-Moves 1 b _ _ (r_u8-Moves truncated b) λ j c _ _.
                          then-Moves j c _ _ (r_skip-Moves truncated j c)
                            λ _ d _ _. pure-Moves random d

check_versions-returns : (sv : Bytes) → check_versions sv ≢ fault
unfolding check_versions
check_versions-returns sv = ground arith

client_extensions-Moves : (block : Bytes) (r : Reader) → Moves 0 r (client_extensions block r)
client_extensions-Moves block r = then-Moves 0 r _ _ (extension-Moves block 43 r) λ sv s _ _.
    then-Moves 0 s _ _ (lift-Moves (check_versions sv) s (check_versions-returns sv)) λ _ t _ _.
      then-Moves 0 t _ _ (extension-Moves block 51 t) λ ks u _ _.
        lift-Moves (run ks client_shares) u
          (value-returns 0 (r_init ks) _ (client_shares-Moves (r_init ks)))

client_hello_parse-returns : (buf : Bytes) → client_hello_parse buf ≢ fault
unfolding client_hello_parse
client_hello_parse-returns buf = value-returns 0 (r_init buf) _ (
    then-Moves 0 (r_init buf) _ _ (client_head-Moves (r_init buf)) λ random s _ _.
      then-Moves 2 s _ _ (r_u16-Moves truncated s) λ n t _ _.
        then-Moves n t _ _ (r_bytes-Moves bad_length n t) λ block u _ _.
          then-Moves 0 u _ _ (client_extensions-Moves block u) λ key v _ _. (refl, omega arith))

-- On every buffer both parsers return, with a value or an error: the loops over the extensions, the
-- cipher suites and the key shares end within the fuel of one round per byte.
pub hello_parse-returns :
    (buf : Bytes) → (client_hello_parse buf ≢ fault) × (server_hello_parse buf ≢ fault)
hello_parse-returns buf = (client_hello_parse-returns buf, server_hello_parse-returns buf)
