-- ===== src/Net.antt =====
-- What a handshake driver does to the world: the socket of src/transport/udp.c and the random bytes
-- of src/random.c. Both stand on the operating system, so their answers are lists that the state
-- carries, one entry for each call; a driver is a function of that state.
pub mod Done
pub mod Delivered
pub mod Traffic
use nano_dtls.Base.{
  ℕ, List, [], ◌∷◌, ◌++◌, Bytes, Result, ok, err, fault, Status, truncated, bad_arg,
}

-- `arrivals` are the answers of `nd_udp_server_accept_peer` and `nd_udp_recv`, `send_results` those
-- of `nd_udp_send`, `randoms` those of `nd_random_bytes`, and `sent` is what was sent. Where the
-- arrivals are used up a receive times out; where the send results are, a send succeeds.
pub record Net : Type 0 where
  pub arrivals : List (Result Bytes)
  pub send_results : List (Result (Unit {0}))
  pub randoms : List (Result Bytes)
  pub sent : List Bytes

-- A step returns `ND_OK` with its outputs, an error, or it leaves what C defines.
pub data Run {ℓ} (A : Type ℓ) : Type ℓ where
  done : A → Net → Run A
  failed : Status → Net → Run A
  broke : Run A

abbrev pub Step {ℓ} : Type ℓ → Type ℓ
Step A = Net → Run A

abbrev pub follow {ℓ κ} : {A : Type ℓ} {B : Type κ} → Run A → (A → Step B) → Run B
follow (done a n) f = f a n
follow (failed e n) f = failed e n
follow broke f = broke

infixl 5 ◌>>=◌ ◌>>◌
abbrev pub ◌>>=◌ {ℓ κ} : {A : Type ℓ} {B : Type κ} → Step A → (A → Step B) → Step B
◌>>=◌ m f n = follow (m n) f

abbrev pub ◌>>◌ {ℓ} : {B : Type ℓ} → Step (Unit {0}) → Step B → Step B
m >> k = m >>= λ _. k

abbrev pub pure {ℓ} : {A : Type ℓ} → A → Step A
pure a n = done a n

-- A call that does not touch the world.
abbrev pub lift {ℓ} : {A : Type ℓ} → Result A → Step A
lift (ok a) n = done a n
lift (err e) n = failed e n
lift fault n = broke

-- After an error, something else; a loop goes on with it.
abbrev pub retry {ℓ} : {A : Type ℓ} → Run A → (Status → Step A) → Run A
retry (done a n) otherwise = done a n
retry (failed e n) otherwise = otherwise e n
retry broke otherwise = broke

abbrev received : List (Result Bytes) → Step Bytes
received [] n = failed truncated n
received (r ∷ rs) n = lift r (record n { arrivals = rs })

-- `nd_udp_recv`
unfoldable pub recv : Step Bytes
recv n = received n.arrivals n

abbrev pub delivered : Bytes → Net → Net
delivered datagram n = record n { sent = n.sent ++ datagram ∷ [] }

abbrev sending : List (Result (Unit {0})) → Bytes → Step (Unit {0})
sending [] datagram n = done tt (delivered datagram n)
sending (ok x ∷ rs) datagram n = done tt (delivered datagram (record n { send_results = rs }))
sending (err e ∷ rs) datagram n = failed e (record n { send_results = rs })
sending (fault ∷ rs) datagram n = broke

-- `nd_udp_send`
unfoldable pub send : Bytes → Step (Unit {0})
send datagram n = sending n.send_results datagram n

-- `if (call != ND_OK) return ND_ERR_BAD_ARG;`
abbrev pub or_bad_arg {ℓ} : {A : Type ℓ} → Result A → Result A
or_bad_arg (ok a) = ok a
or_bad_arg (err e) = err bad_arg
or_bad_arg fault = fault

abbrev drawing : List (Result Bytes) → Step Bytes
drawing [] n = failed bad_arg n
drawing (r ∷ rs) n = lift (or_bad_arg r) (record n { randoms = rs })

-- `nd_random_bytes` as the drivers call it
unfoldable pub random_bytes : Step Bytes
random_bytes n = drawing n.randoms n
