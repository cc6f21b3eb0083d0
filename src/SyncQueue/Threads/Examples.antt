-- ===== src/SyncQueue/Threads/Examples.antt =====
-- Two threads at one queue: one waits in `pop` until the other has pushed.
use blockchain_voting.Base.{ℕ, ◌≡◌, refl, true, Option, none, some, []}
use native.Mathlib.Decide.{ℕ_discrete}
use blockchain_voting.SyncQueue.{push, back}
use blockchain_voting.SyncQueue.Threads.{
  Pthread, IsPthread, Pc, Move, System, unused, moves, Reach, here, next,
}
use blockchain_voting.SyncQueue.Threads.Locking.{mutual_exclusion}
use blockchain_voting.SyncQueue.Threads.Progress.{IsAvailable, busy, CanMove, deadlock_free}
use blockchain_voting.SyncQueue.Threads.Atomic.{AtomicReach, at_rest, view, Reach-AtomicReach}

-- A mutex that is its holder. A thread may wake at any time.
abbrev toy : Pthread
toy = record {
  Mutex = Option ℕ;
  holder = λ m. m;
  lock = λ i m m'. (m ≡ none) × (m' ≡ some i);
  unlock = λ i m m'. (m ≡ some i) × (m' ≡ none);
  wait = λ i m m'. (m ≡ some i) × (m' ≡ none);
  wake = λ i m m'. (m ≡ none) × (m' ≡ some i);
  signal = λ i m m'. m' ≡ m;
}

toy-IsPthread : IsPthread toy
toy-IsPthread = record {
  lock_takes = λ i m m' h. h;
  wake_takes = λ i m m' h. h;
  unlock_frees = λ i m m' h. h.1;
  wait_frees = λ i m m' h. h.1;
  signal_keeps = λ i m m' h. h;
}

abbrev System2 : Type 0
System2 = System toy ℕ

-- Thread 0 sleeps in `pop`, and thread 1 stands before the line that pushes.
abbrev contended : (s : System2) × Reach (unused none) s
unfolding ℕ_discrete
contended = (
  _,
  next
      (next
        (next (next (next here (moves 0 Move.calls_pop)) (moves 1 (Move.calls_push 7)))
          (moves 0 (Move.locks_pop {m' = some 0} (refl, refl))))
        (moves 0 (Move.waits {m' = none} (refl, refl))))
      (moves 1 (Move.locks_push {m' = some 1} (refl, refl))),
)

mutual_exclusion_example : ◌≡◌ {A = ℕ} 1 1 × (contended.0.mutex ≡ some 1)
unfolding ℕ_discrete
mutual_exclusion_example =
    mutual_exclusion toy-IsPthread {A = ℕ} {s = contended.0} contended.1 1 1 refl refl

-- Thread 1 has pushed its element, and thread 0 has woken and returns it.
abbrev served : (s : System2) × Reach (unused none) s
unfolding ℕ_discrete push
served = (
  _,
  next
      (next
        (next
          (next
            (next
              (next (next contended.1 (moves 1 Move.pushes))
                (moves 1 (Move.signals {m' = some 1} refl)))
              (moves 1 (Move.unlocks_push {m' = none} (refl, refl))))
            (moves 0 (Move.wakes {m' = some 0} (refl, refl))))
          (moves 0 Move.reads_back))
        (moves 0 Move.pops))
      (moves 0 (Move.unlocks_pop {m' = none} (refl, refl))),
)

served_returns : (served.0.pc 0 ≡ Pc.returned (some 7)) × (served.0.queue ≡ [])
unfolding ℕ_discrete push back
served_returns = (refl, refl)

Reach-AtomicReach_example : AtomicReach at_rest (view served.0)
unfolding ℕ_discrete push back
Reach-AtomicReach_example = Reach-AtomicReach toy-IsPthread {A = ℕ} {s = served.0} served.1

toy-IsAvailable : IsAvailable toy
toy-IsAvailable = record {
  locks = λ i m free. (some i, (free, refl));
  unlocks = λ i m mine. (none, (mine, refl));
  waits = λ i m mine. (none, (mine, refl));
  signals = λ i m mine. (m, refl);
}

deadlock_free_example :
    (j : ℕ) × (busy (contended.0.pc j) ≡ true)
    × CanMove toy j contended.0.mutex contended.0.queue (contended.0.pc j)
unfolding ℕ_discrete
deadlock_free_example =
    deadlock_free toy-IsPthread {A = ℕ} {s = contended.0} toy-IsAvailable refl contended.1 1 refl
