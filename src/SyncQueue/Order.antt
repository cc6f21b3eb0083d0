-- ===== src/SyncQueue/Order.antt =====
-- In which order `synchronized_queue` of processor.cpp gives its elements back.
use blockchain_voting.Base.{
  ℕ, zero, suc, ◌+◌, ◌≤◌, ◌≡◌, refl, ap, subst, ◌≢◌, ◌↔◌, true, none, some, [], ◌∷◌, ◌++◌, arith,
  length, replicate, length-append, All,
}
use mathlib.Core.Option.{some-injective}
use blockchain_voting.SyncQueue.{Queue, push, back, pop, pop_nonblocking, empty, drain}

module _ {ℓ} {A : Type ℓ} where
  back-push : (x t : A) (q : Queue A) → back x (q ++ t ∷ []) ≡ t
  unfolding back
  back-push x t [] = refl
  back-push x t (y ∷ q) = back-push y t q

  -- After a `push`, `pop` gives the element just pushed, whatever else waits in the queue, and the
  -- element that leaves the queue is the oldest one.
  pub pop-push :
      (q : Queue A) (x t : A)
      → (pop (push [] t) ≡ some (t, [])) × (pop (push (x ∷ q) t) ≡ some (t, push q t))
  unfolding pop push
  pop-push q x t = (refl, rw (back-push x t q))

  drain-append :
      (n : ℕ) (q : Queue A) (t : A)
      → length q ≤ n
      → drain (suc n) (q ++ t ∷ []) ≡ replicate (suc (length q)) t
  unfolding drain pop_nonblocking
  drain-append n [] t h = ap (◌∷◌ t) (drain_nil n)
    where
      drain_nil : (n : ℕ) → drain {A = A} n [] ≡ []
      drain_nil zero = refl
      drain_nil (suc n) = refl
  drain-append zero (x ∷ q) t h = absurd (omega arith)
  drain-append (suc n) (x ∷ q) t h =
      rw (back-push x t q) (ap (◌∷◌ t) (drain-append n q t (omega arith)))

  -- The loop that empties a queue with `pop_nonblocking` runs its body on the newest element once
  -- for each element, and on none of the others; as many rounds as there are elements end it.
  pub drain-push :
      (q : Queue A) (t : A) (spare : ℕ)
      → drain (length (push q t) + spare) (push q t) ≡ replicate (length (push q t)) t
  unfolding push
  drain-push q t spare = rw (length-append q (t ∷ [])) (
      let e : length q + 1 + spare ≡ suc (length q + spare) = omega arith in
      let e' : length q + 1 ≡ suc (length q) = omega arith in
      rw (e, e') (drain-append (length q + spare) q t (omega arith)))

  -- `pop` waits, and `pop_nonblocking` gives `NULL`, exactly on an empty queue; otherwise both
  -- shorten the queue by one.
  pub pop-empty :
      (q : Queue A)
      → ((pop q ≡ none) ↔ (empty q ≡ true))
        × (pop_nonblocking q ≡ pop q)
        × ((t : A) (q' : Queue A) → pop q ≡ some (t, q') → length q ≡ suc (length q'))
  unfolding pop pop_nonblocking empty
  pop-empty [] = ((λ _. refl, λ _. refl), refl, λ t q' e. cc)
  pop-empty (x ∷ q) = ((λ e. cc, λ e. ground arith), refl, λ t q' e. ground arith)

  -- So the queue is not first in, first out: where the oldest element differs from the newest one,
  -- `pop` does not give the oldest.
  pub pop_not_fifo :
      (q : Queue A) (x t : A)
      → x ≢ t
      → ¬ ((rest : Queue A) × (pop (push (x ∷ q) t) ≡ some (x, rest)))
  pop_not_fifo q x t ne (rest, e) = ne (ground (arith, (pop-push q x t).1))

-- What holds of every element holds of the one popped and of those that stay.
pub pop_nonblocking-All {ℓ κ} :
    {A : Type ℓ} (P : A → Type κ) (q q' : Queue A) (t : A)
    → All P q
    → pop_nonblocking q ≡ some (t, q')
    → P t × All P q'
unfolding pop_nonblocking
pop_nonblocking-All P [] q' t all e = cc
pop_nonblocking-All {A} P (x ∷ q) q' t all e =
    (subst P (ap (λ p. p.0) same) (All-back x q all), subst (All P) (ap (λ p. p.1) same) all.1)
  where
    All-back : (x : A) (q : Queue A) → P x × All P q → P (back x q)
    All-back x [] all = all.0
    All-back x (y ∷ q) all = All-back y q all.1

    same : ◌≡◌ {A = A × Queue A} (back x q, q) (t, q')
    same = some-injective _ _ e

pub pop-All {ℓ κ} :
    {A : Type ℓ} (P : A → Type κ) (q q' : Queue A) (t : A)
    → All P q
    → pop q ≡ some (t, q')
    → P t × All P q'
pop-All P q q' t all e = pop_nonblocking-All P q q' t all (unfold pop pop_nonblocking in e)
