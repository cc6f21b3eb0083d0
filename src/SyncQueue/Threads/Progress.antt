-- ===== src/SyncQueue/Threads/Progress.antt =====
-- That the threads at a `synchronized_queue` (processor.cpp) do not lock each other out.
use blockchain_voting.Base.{
  ℕ, ◌≡◌, refl, inl, inr, Bool, true, false, none, some, [], ◌∷◌, arith, Bool-cases, Option-cases,
}
use blockchain_voting.SyncQueue.{Queue, pop}
use blockchain_voting.SyncQueue.Threads.{
  Pthread, IsPthread, Pc, inside, Move, update, System, unused, moves, Reach, here, next,
}
use blockchain_voting.SyncQueue.Threads.Locking.{HasRead, Passage, Move-Passage, Reach-Inv}

-- What pthread documents of calls that return: a free mutex can be locked, and the thread that
-- holds it can unlock it, begin to wait, and signal.
pub record IsAvailable (p : Pthread) : Type 0 where
  pub locks : (i : ℕ) (m : p.Mutex) → p.holder m ≡ none → (m' : p.Mutex) × p.lock i m m'
  pub unlocks : (i : ℕ) (m : p.Mutex) → p.holder m ≡ some i → (m' : p.Mutex) × p.unlock i m m'
  pub waits : (i : ℕ) (m : p.Mutex) → p.holder m ≡ some i → (m' : p.Mutex) × p.wait i m m'
  pub signals : (i : ℕ) (m : p.Mutex) → p.holder m ≡ some i → (m' : p.Mutex) × p.signal i m m'

-- In a call, and not asleep in it.
abbrev pub busy : {A : Type 0} → Pc A → Bool
busy Pc.idle = false
busy Pc.pop_asleep = false
busy _ = true

-- The thread can run its next line.
abbrev pub CanMove : (p : Pthread) {A : Type 0} → ℕ → p.Mutex → Queue A → Pc A → Type 0
CanMove p {A} i m q c = (m' : p.Mutex) × (q' : Queue A) × (c' : Pc A) × Move p A i m q c m' q' c'

inside-busy : {A : Type 0} (c : Pc A) → inside c ≡ true → busy c ≡ true
inside-busy Pc.idle h = cc
inside-busy Pc.pop_asleep h = cc
inside-busy _ h = refl

module _ {p : Pthread} (live : IsAvailable p) {A : Type 0} (i : ℕ) (m : p.Mutex) where
  -- A thread inside is never held up.
  inside-CanMove :
      (q : Queue A) (c : Pc A)
      → inside c ≡ true
      → p.holder m ≡ some i
      → HasRead q c
      → CanMove p i m q c
  unfolding pop
  inside-CanMove q (Pc.push_push t) h mine r = (_, _, _, Move.pushes)
  inside-CanMove q (Pc.push_signal t) h mine r = (_, _, _, Move.signals (live.signals i m mine).1)
  inside-CanMove q (Pc.push_unlock t) h mine r =
      (_, _, _, Move.unlocks_push (live.unlocks i m mine).1)
  inside-CanMove [] Pc.pop_test h mine r = (_, _, _, Move.waits (live.waits i m mine).1)
  inside-CanMove (x ∷ q) Pc.pop_test h mine r = (_, _, _, Move.reads_back)
  inside-CanMove [] (Pc.pop_pop ret) h mine (rest, e) = cc
  inside-CanMove (x ∷ q) (Pc.pop_pop ret) h mine r = (_, _, _, Move.pops)
  inside-CanMove q (Pc.pop_unlock ret) h mine r =
      (_, _, _, Move.unlocks_pop (live.unlocks i m mine).1)
  inside-CanMove [] Pc.try_test h mine r = (_, _, _, Move.finds_none)
  inside-CanMove (x ∷ q) Pc.try_test h mine r = (_, _, _, Move.tries_back)
  inside-CanMove q Pc.try_unlock_null h mine r =
      (_, _, _, Move.unlocks_null (live.unlocks i m mine).1)
  inside-CanMove [] (Pc.try_pop ret) h mine (rest, e) = cc
  inside-CanMove (x ∷ q) (Pc.try_pop ret) h mine r = (_, _, _, Move.tries_pop)
  inside-CanMove q (Pc.try_unlock ret) h mine r =
      (_, _, _, Move.unlocks_try (live.unlocks i m mine).1)
  inside-CanMove q Pc.idle h mine r = cc
  inside-CanMove q (Pc.push_lock t) h mine r = cc
  inside-CanMove q Pc.pop_lock h mine r = cc
  inside-CanMove q Pc.pop_asleep h mine r = cc
  inside-CanMove q Pc.try_lock h mine r = cc
  inside-CanMove q Pc.pushed h mine r = cc
  inside-CanMove q (Pc.returned r) h mine s = cc

  -- Nor is a thread outside, while the mutex is free.
  outside-CanMove :
      (q : Queue A) (c : Pc A)
      → inside c ≡ false
      → busy c ≡ true
      → p.holder m ≡ none
      → CanMove p i m q c
  outside-CanMove q (Pc.push_lock t) out b free = (_, _, _, Move.locks_push (live.locks i m free).1)
  outside-CanMove q Pc.pop_lock out b free = (_, _, _, Move.locks_pop (live.locks i m free).1)
  outside-CanMove q Pc.try_lock out b free = (_, _, _, Move.locks_try (live.locks i m free).1)
  outside-CanMove q Pc.pushed out b free = (_, _, _, Move.goes_on_pushed)
  outside-CanMove q (Pc.returned r) out b free = (_, _, _, Move.goes_on)
  outside-CanMove q Pc.idle out b free = cc
  outside-CanMove q Pc.pop_asleep out b free = cc
  outside-CanMove q _ out b free = cc

module _ {p : Pthread} (law : IsPthread p) {A : Type 0} where
  Move-held :
      {i : ℕ} {m m' : p.Mutex} (pc : ℕ → Pc A) (c' : Pc A)
      → ((j : ℕ) → p.holder m ≡ some j → inside (pc j) ≡ true)
      → Passage p i m (pc i) m' c'
      → (j : ℕ) → p.holder m' ≡ some j
      → inside (update pc i c' j) ≡ true
  Move-held {i} pc c' held pass j e = ground (arith, held i, held j)

  -- The thread that holds the mutex is inside.
  Reach-held :
      {m : p.Mutex} {s : System p A}
      → p.holder m ≡ none
      → Reach (unused m) s
      → (j : ℕ) → p.holder s.mutex ≡ some j
      → inside (s.pc j) ≡ true
  Reach-held free here j e = cc
  Reach-held free (next r (moves i {c = c} mv)) j e =
      Move-held _ c (Reach-held free r) (Move-Passage law mv) j e

  -- The threads do not lock each other out, over a mutex that behaves as pthread documents and was
  -- free at first, if pthread's calls return where a thread may make them: however the threads have
  -- come to the queue, while one of them is in a call and not asleep in it, there is such a thread
  -- that can run its next line.
  pub deadlock_free :
      {m : p.Mutex} {s : System p A} (live : IsAvailable p)
      → p.holder m ≡ none
      → Reach (unused m) s
      → (i : ℕ) → busy (s.pc i) ≡ true
      → (j : ℕ) × (busy (s.pc j) ≡ true) × CanMove p j s.mutex s.queue (s.pc j)
  deadlock_free {s = s} live free r i b =
      let v = Reach-Inv law r in
      elim (Option-cases (p.holder s.mutex)) [
        | inr (j, mine) ↦
            let in_j = Reach-held free r j mine in
            (
              j,
              inside-busy (s.pc j) in_j,
              inside-CanMove live j s.mutex s.queue (s.pc j) in_j mine (v.has_read j),
            )
        | inl nobody ↦ elim (Bool-cases (inside (s.pc i))) [
          | inl in_i ↦ let mine = v.owned i in_i in cc
          | inr out ↦ (i, b, outside-CanMove live i s.mutex s.queue (s.pc i) out b nobody)
        ]
      ]
