-- ===== src/Net/Delivered.antt =====
-- A network that delivers: the answers of its calls, one by one.
use nano_dtls.Base.{◌≡◌, refl, ap, ◌∙◌, List, [], ◌∷◌, ◌++◌, Bytes, Result, ok}
use nano_dtls.Net.{Net, Run, done, Step, follow, ◌>>=◌, lift, recv, send, random_bytes}

abbrev pub answers : List Bytes → List (Result Bytes)
answers [] = []
answers (d ∷ ds) = ok d ∷ answers ds

-- The datagrams that will arrive, the random bytes that will be drawn, and what was sent.
abbrev pub network : List Bytes → List Bytes → List Bytes → Net
network datagrams randoms sent = record {
  arrivals = answers datagrams;
  send_results = [];
  randoms = answers randoms;
  sent = sent;
}

-- A step that is done is followed by the next one.
pub step-returns {ℓ κ} :
    {A : Type ℓ} {B : Type κ} {m : Run A} {n : Net} {a : A} {r : Run B} (f : A → Step B)
    → m ≡ done a n
    → f a n ≡ r
    → follow m f ≡ r
step-returns f e h = ap (λ x. follow x f) e ∙ h

pub lift-returns {ℓ κ} :
    {A : Type ℓ} {B : Type κ} {m : Result A} {n : Net} {a : A} {r : Run B} (f : A → Step B)
    → m ≡ ok a
    → f a n ≡ r
    → (lift m >>= f) n ≡ r
lift-returns {n = n} f e h = ap (λ x. follow (lift x n) f) e ∙ h

pub recv-network :
    (d : Bytes) (ds rs sent : List Bytes)
    → recv (network (d ∷ ds) rs sent) ≡ done d (network ds rs sent)
unfolding recv
recv-network d ds rs sent = refl

pub send-network :
    (d : Bytes) (ds rs sent : List Bytes)
    → send d (network ds rs sent) ≡ done tt (network ds rs (sent ++ d ∷ []))
unfolding send
send-network d ds rs sent = refl

pub random_bytes-network :
    (r : Bytes) (ds rs sent : List Bytes)
    → random_bytes (network ds (r ∷ rs) sent) ≡ done r (network ds rs sent)
unfolding random_bytes
random_bytes-network r ds rs sent = refl
