-- ===== src/Net/Traffic.antt =====
-- What went over the socket in a step.
use nano_dtls.Base.{
  ◌≡◌, ◌⊎◌, inl, inr, refl, sym, ap, ◌∙◌, arith, List, [], ◌∷◌, ◌++◌, Bytes, Status, Result, ok,
  err, fault,
}
use mathlib.Core.List.{append_assoc, append-nil}
use nano_dtls.Net.{
  Net, Run, done, failed, broke, Step, follow, ◌>>=◌, lift, or_bad_arg, recv, send, random_bytes,
  received, sending, drawing,
}

-- From one state to another these answers were received, and these datagrams were sent.
pub record Moved (n n' : Net) (answers : List (Result Bytes)) (datagrams : List Bytes)
    : Type 0 where
  pub arrived : n.arrivals ≡ answers ++ n'.arrivals
  pub went : n'.sent ≡ n.sent ++ datagrams

pub still : (n : Net) → Moved n n [] []
still n = record { arrived = refl; went = sym (append-nil n.sent) }

pub Moved-then :
    (n n1 n2 : Net) (a b : List (Result Bytes)) (s t : List Bytes)
    → Moved n n1 a s
    → Moved n1 n2 b t
    → Moved n n2 (a ++ b) (s ++ t)
Moved-then n n1 n2 a b s t m k = record {
  arrived = m.arrived ∙ ap (λ x. a ++ x) k.arrived ∙ sym (append_assoc a b n2.arrivals);
  went = k.went ∙ ap (λ x. x ++ t) m.went ∙ append_assoc n.sent s t;
}

-- Nothing, then answers of which the last is `x`, then others.
pub Moved-behind :
    (n n1 n2 n3 : Net) (a b : List (Result Bytes)) (x : Result Bytes) (s t : List Bytes)
    → Moved n n1 [] []
    → Moved n1 n2 (a ++ x ∷ []) s
    → Moved n2 n3 b t
    → Moved n n3 (a ++ (x ∷ b)) (s ++ t)
Moved-behind n n1 n2 n3 a b x s t m k l =
    let all =
      Moved-then n n1 n3 [] ((a ++ x ∷ []) ++ b) [] (s ++ t) m
        (Moved-then n1 n2 n3 (a ++ x ∷ []) b s t k l) in
    record {
      arrived = all.arrived ∙ ap (λ c. c ++ n3.arrivals) (append_assoc a (x ∷ []) b);
      went = all.went;
    }

abbrev world {ℓ} : {A : Type ℓ} → Net → Run A → Net
world d (done a n) = n
world d (failed e n) = n
world d broke = d

pub done-world {ℓ} : {A : Type ℓ} (a b : A) (n n' : Net) → done a n ≡ done b n' → n ≡ n'
done-world a b n n' h = ap (world n) h

failed-world {ℓ} :
    {A : Type ℓ} (e e' : Status) (n n' : Net) → ◌≡◌ {A = Run A} (failed e n) (failed e' n') → n ≡ n'
failed-world e e' n n' h = ap (world n) h

pub lift-world {ℓ} :
    {A : Type ℓ} (m : Result A) (n n' : Net) (a : A) → lift m n ≡ done a n' → n ≡ n'
lift-world (ok b) n n' a h = done-world b a n n' h
lift-world (err e) n n' a h = absurd (ground (arith, h))
lift-world fault n n' a h = absurd (ground (arith, h))

pub lift-failed {ℓ} :
    {A : Type ℓ} (m : Result A) (n n' : Net) (e : Status) → lift m n ≡ failed e n' → n ≡ n'
lift-failed (ok b) n n' e h = absurd (ground (arith, h))
lift-failed (err s) n n' e h = failed-world s e n n' h
lift-failed fault n n' e h = absurd (ground (arith, h))

pub recv-Moved : (n n' : Net) (d : Bytes) → recv n ≡ done d n' → Moved n n' (ok d ∷ []) []
unfolding recv
recv-Moved n n' d h = of_arrivals n.arrivals refl h
  where
    of_arrivals :
        (xs : List (Result Bytes))
        → n.arrivals ≡ xs
        → received xs n ≡ done d n'
        → Moved n n' (ok d ∷ []) []
    of_arrivals [] e h = absurd (ground (arith, h))
    of_arrivals (ok x ∷ rs) e h =
        let same : record n { arrivals = rs } ≡ n' = done-world x d _ n' h in
        let value : x ≡ d = ap (λ r. from x r) h in
        record {
          arrived = e ∙ (λ i. ok (value i) ∷ (same i).arrivals);
          went = sym (ap Net.sent same) ∙ sym (append-nil n.sent);
        }
      where
        from : Bytes → Run Bytes → Bytes
        from y (done a m) = a
        from y (failed s m) = y
        from y broke = y
    of_arrivals (err s ∷ rs) e h = absurd (ground (arith, h))
    of_arrivals (fault ∷ rs) e h = absurd (ground (arith, h))

pub recv-failed :
    (n n' : Net) (s : Status) → recv n ≡ failed s n' → (a : List (Result Bytes)) × Moved n n' a []
unfolding recv
recv-failed n n' s h = of_arrivals n.arrivals refl h
  where
    of_arrivals :
        (xs : List (Result Bytes))
        → n.arrivals ≡ xs
        → received xs n ≡ failed s n'
        → (a : List (Result Bytes)) × Moved n n' a []
    of_arrivals [] e h =
        let same = failed-world _ s n n' h in
        (
          [],
          record {
            arrived = ap Net.arrivals same;
            went = sym (ap Net.sent same) ∙ sym (append-nil n.sent);
          },
        )
    of_arrivals (ok x ∷ rs) e h = absurd (ground (arith, h))
    of_arrivals (err t ∷ rs) e h =
        let same : record n { arrivals = rs } ≡ n' = failed-world t s _ n' h in
        (
          err t ∷ [],
          record {
            arrived = e ∙ (λ i. err t ∷ (same i).arrivals);
            went = sym (ap Net.sent same) ∙ sym (append-nil n.sent);
          },
        )
    of_arrivals (fault ∷ rs) e h = absurd (ground (arith, h))

pub send-Moved : (n n' : Net) (d : Bytes) → send d n ≡ done tt n' → Moved n n' [] (d ∷ [])
unfolding send
send-Moved n n' d h = of_results n.send_results h
  where
    of_results :
        (rs : List (Result (Unit {0}))) → sending rs d n ≡ done tt n' → Moved n n' [] (d ∷ [])
    of_results [] h =
        let same = done-world tt tt _ n' h in
        record { arrived = ap Net.arrivals same; went = sym (ap Net.sent same) }
    of_results (ok x ∷ rs) h =
        let same = done-world tt tt _ n' h in
        record { arrived = ap Net.arrivals same; went = sym (ap Net.sent same) }
    of_results (err s ∷ rs) h = absurd (ground (arith, h))
    of_results (fault ∷ rs) h = absurd (ground (arith, h))

pub send-failed : (n n' : Net) (d : Bytes) (s : Status) → send d n ≡ failed s n' → Moved n n' [] []
unfolding send
send-failed n n' d s h = of_results n.send_results h
  where
    of_results : (rs : List (Result (Unit {0}))) → sending rs d n ≡ failed s n' → Moved n n' [] []
    of_results [] h = absurd (ground (arith, h))
    of_results (ok x ∷ rs) h = absurd (ground (arith, h))
    of_results (err t ∷ rs) h =
        let same = failed-world t s _ n' h in
        record {
          arrived = ap Net.arrivals same;
          went = sym (ap Net.sent same) ∙ sym (append-nil n.sent);
        }
    of_results (fault ∷ rs) h = absurd (ground (arith, h))

pub random_bytes-Moved : (n n' : Net) (r : Bytes) → random_bytes n ≡ done r n' → Moved n n' [] []
unfolding random_bytes
random_bytes-Moved n n' r h = of_randoms n.randoms h
  where
    of_randoms : (rs : List (Result Bytes)) → drawing rs n ≡ done r n' → Moved n n' [] []
    of_randoms [] h = absurd (ground (arith, h))
    of_randoms (x ∷ rs) h =
        let same = lift-world (or_bad_arg x) _ n' r h in
        record {
          arrived = ap Net.arrivals same;
          went = sym (ap Net.sent same) ∙ sym (append-nil n.sent);
        }

-- A chain of two steps fails in the first or in the second.
pub step-failed {ℓ κ} :
    {A : Type ℓ} {B : Type κ} (m : Step A) (f : A → Step B) (n n' : Net) (e : Status)
    → (m >>= f) n ≡ failed e n'
    → (m n ≡ failed e n') ⊎ ((a : A) × (n1 : Net) × (m n ≡ done a n1) × (f a n1 ≡ failed e n'))
step-failed {A = A} {B} m f n n' e h = of_run (m n) refl h
  where
    status_of : Status → Run B → Status
    status_of s (done b m) = s
    status_of s (failed t m) = t
    status_of s broke = s

    of_run :
        (r : Run A)
        → m n ≡ r
        → follow r f ≡ failed e n'
        → (m n ≡ failed e n') ⊎ ((a : A) × (n1 : Net) × (m n ≡ done a n1) × (f a n1 ≡ failed e n'))
    of_run (done a n1) k h = inr (a, n1, k, h)
    of_run (failed s n1) k h = inl (k ∙ (λ i. failed (status_of s (h i)) (world n1 (h i))))
    of_run broke k h = absurd (ground (arith, h))
