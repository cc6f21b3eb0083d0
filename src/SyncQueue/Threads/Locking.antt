-- ===== src/SyncQueue/Threads/Locking.antt =====
-- That the mutex of `synchronized_queue` (processor.cpp) keeps the threads out of each other's way.
use blockchain_voting.Base.{
  ℕ, ◌≡◌, refl, sym, subst, ◌∙◌, ◌≢◌, ◌⊎◌, inl, inr, true, false, none, some, arith, Bool-cases,
}
use mathlib.Core.Option.{some-injective}
use native.Mathlib.Decide.{ℕ_discrete}
use mathlib.Core.Logic.{ite}
use blockchain_voting.SyncQueue.{Queue, pop}
use blockchain_voting.SyncQueue.Threads.{
  Pthread, IsPthread, Pc, inside, Move, update, System, unused, Step, moves, Reach, here, next,
}

-- What `ret` is before the line that removes an element: what a `pop` of the queue as it is gives.
abbrev pub HasRead : {A : Type 0} → Queue A → Pc A → Type 0
HasRead q (Pc.pop_pop ret) = (rest : Queue _) × (pop q ≡ some (ret, rest))
HasRead q (Pc.try_pop ret) = (rest : Queue _) × (pop q ≡ some (ret, rest))
HasRead q _ = Unit {0}

-- A line that locks, one that unlocks, or one in between or outside.
abbrev pub Passage : (p : Pthread) {A : Type 0} → ℕ → p.Mutex → Pc A → p.Mutex → Pc A → Type 0
Passage p i m c m' c' =
    ((p.holder m' ≡ p.holder m) × (inside c' ≡ inside c))
    ⊎ (((p.holder m ≡ none) × (p.holder m' ≡ some i) × (inside c' ≡ true))
        ⊎ ((inside c ≡ true) × (p.holder m' ≡ none) × (inside c' ≡ false)))

-- A thread inside holds the mutex, and what it has read still is what `pop` gives.
pub record Inv (p : Pthread) {A : Type 0} (m : p.Mutex) (q : Queue A) (pc : ℕ → Pc A) : Type 0 where
  pub owned : (i : ℕ) → inside (pc i) ≡ true → p.holder m ≡ some i
  pub has_read : (i : ℕ) → HasRead q (pc i)

-- The queue changes only between locking and unlocking.
Move-queue :
    {p : Pthread} {A : Type 0} {i : ℕ} {m m' : p.Mutex} {q q' : Queue A} {c c' : Pc A}
    → Move p A i m q c m' q' c'
    → (inside c ≡ true) ⊎ (q' ≡ q)
Move-queue Move.pushes = inl refl
Move-queue Move.pops = inl refl
Move-queue Move.tries_pop = inl refl
Move-queue _ = inr refl

-- A line that leaves `ret` to be removed has read it off the queue.
Move-HasRead :
    {p : Pthread} {A : Type 0} {i : ℕ} {m m' : p.Mutex} {q q' : Queue A} {c c' : Pc A}
    → Move p A i m q c m' q' c'
    → HasRead q' c'
unfolding pop
Move-HasRead (Move.reads_back {q = q}) = (q, refl)
Move-HasRead (Move.tries_back {q = q}) = (q, refl)
Move-HasRead _ = tt

module _ {p : Pthread} (law : IsPthread p) {A : Type 0} where
  pub Move-Passage :
      {i : ℕ} {m m' : p.Mutex} {q q' : Queue A} {c c' : Pc A}
      → Move p A i m q c m' q' c'
      → Passage p i m c m' c'
  Move-Passage {i} {m} {m'} (Move.locks_push l) =
      let (free, taken) = law.lock_takes i m m' l in inr (inl (free, taken, refl))
  Move-Passage {i} {m} {m'} (Move.locks_pop l) =
      let (free, taken) = law.lock_takes i m m' l in inr (inl (free, taken, refl))
  Move-Passage {i} {m} {m'} (Move.locks_try l) =
      let (free, taken) = law.lock_takes i m m' l in inr (inl (free, taken, refl))
  Move-Passage {i} {m} {m'} (Move.wakes l) =
      let (free, taken) = law.wake_takes i m m' l in inr (inl (free, taken, refl))
  Move-Passage {i} {m} {m'} (Move.waits l) = inr (inr (refl, law.wait_frees i m m' l, refl))
  Move-Passage {i} {m} {m'} (Move.unlocks_push l) =
      inr (inr (refl, law.unlock_frees i m m' l, refl))
  Move-Passage {i} {m} {m'} (Move.unlocks_pop l) = inr (inr (refl, law.unlock_frees i m m' l, refl))
  Move-Passage {i} {m} {m'} (Move.unlocks_null l) =
      inr (inr (refl, law.unlock_frees i m m' l, refl))
  Move-Passage {i} {m} {m'} (Move.unlocks_try l) = inr (inr (refl, law.unlock_frees i m m' l, refl))
  Move-Passage {i} {m} {m'} (Move.signals l) = inl (law.signal_keeps i m m' l, refl)
  Move-Passage _ = inl (refl, refl)

  Move-owned :
      {i : ℕ} {m m' : p.Mutex} {q : Queue A} {pc : ℕ → Pc A} (c' : Pc A)
      → Inv p m q pc
      → Passage p i m (pc i) m' c'
      → (j : ℕ) → inside (update pc i c' j) ≡ true
      → p.holder m' ≡ some j
  Move-owned {i} c' v pass j e = ground (arith, v.owned i, v.owned j)

  -- Two threads inside are one.
  alone :
      {m : p.Mutex} {q : Queue A} {pc : ℕ → Pc A}
      → Inv p m q pc
      → (i j : ℕ) → inside (pc i) ≡ true
      → inside (pc j) ≡ true
      → i ≡ j
  alone v i j in_i in_j = some-injective _ _ (sym (v.owned i in_i) ∙ v.owned j in_j)

  HasRead-outside : (q q' : Queue A) (c : Pc A) → inside c ≡ false → HasRead q c → HasRead q' c
  HasRead-outside q q' (Pc.pop_pop ret) out h = absurd cc
  HasRead-outside q q' (Pc.try_pop ret) out h = absurd cc
  HasRead-outside q q' _ out h = h

  Move-others :
      {i : ℕ} {m m' : p.Mutex} {q q' : Queue A} {c' : Pc A} {pc : ℕ → Pc A}
      → Inv p m q pc
      → Move p A i m q (pc i) m' q' c'
      → (j : ℕ) → i ≢ j
      → HasRead q' (pc j)
  Move-others {i} {q} {q'} {pc} v mv j other = elim (Move-queue mv) [
    | inr same ↦ subst (λ q. HasRead q (pc j)) (sym same) (v.has_read j)
    | inl in_i ↦ elim (Bool-cases (inside (pc j))) [
      | inl in_j ↦ absurd (other (alone v i j in_i in_j))
      | inr out ↦ HasRead-outside q q' (pc j) out (v.has_read j)
    ]
  ]

  update-HasRead :
      {i : ℕ} {m m' : p.Mutex} {q q' : Queue A} {c' : Pc A} {pc : ℕ → Pc A}
      → Inv p m q pc
      → Move p A i m q (pc i) m' q' c'
      → (j : ℕ) → HasRead q' (update pc i c' j)
  update-HasRead {i} {q'} {c'} {pc} v mv j =
      elim (ℕ_discrete i j) as (λ d. HasRead q' (ite d c' (pc j))) [
        | yes e ↦ Move-HasRead mv
        | no other ↦ Move-others v mv j other
      ]

  pub Step-Inv :
      {s t : System p A} → Step s t → Inv p s.mutex s.queue s.pc → Inv p t.mutex t.queue t.pc
  Step-Inv {s} (moves i {c = c} mv) v = record {
    owned = Move-owned c v (Move-Passage mv);
    has_read = update-HasRead v mv;
  }

  pub Reach-Inv : {m : p.Mutex} {s : System p A} → Reach (unused m) s → Inv p s.mutex s.queue s.pc
  Reach-Inv {m} here = record { owned = λ i e. cc; has_read = λ i. tt }
  Reach-Inv (next r st) = Step-Inv st (Reach-Inv r)

  -- Over a mutex that behaves as pthread documents, and however any number of threads call `push`,
  -- `pop` and `pop_nonblocking`: two are never together between locking and unlocking, and the one
  -- that is there holds the mutex.
  pub mutual_exclusion :
      {m : p.Mutex} {s : System p A}
      → Reach (unused m) s
      → (i j : ℕ) → inside (s.pc i) ≡ true
      → inside (s.pc j) ≡ true
      → (i ≡ j) × (p.holder s.mutex ≡ some i)
  mutual_exclusion r i j in_i in_j = let v = Reach-Inv r in (alone v i j in_i in_j, v.owned i in_i)
