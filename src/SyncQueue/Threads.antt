-- ===== src/SyncQueue/Threads.antt =====
-- The methods of `synchronized_queue` (processor.cpp) line by line: threads that share one queue
-- and its mutex. The calls of pthread are parameters.
pub mod Locking
pub mod Progress
mod Examples
pub mod Atomic
use blockchain_voting.Base.{ℕ, ◌≡◌, Bool, true, false, Option, none, some, [], ◌∷◌, ◌>>◌}
use native.Mathlib.Decide.{ℕ_discrete}
use mathlib.Core.Logic.{ite}
use blockchain_voting.SyncQueue.{Queue, push, back}

-- What the calls do to a mutex with its condition variable: `lock i m m'` is a call by thread `i`
-- that returns, `wait` the part of `pthread_cond_wait` before the thread sleeps, `wake` the part
-- behind.
pub record Pthread : Type 1 where
  pub Mutex : Type 0
  pub holder : Mutex → Option ℕ
  pub lock : ℕ → Mutex → Mutex → Type 0
  pub unlock : ℕ → Mutex → Mutex → Type 0
  pub wait : ℕ → Mutex → Mutex → Type 0
  pub wake : ℕ → Mutex → Mutex → Type 0
  pub signal : ℕ → Mutex → Mutex → Type 0

-- What pthread documents: a call that locks returns with a mutex that was free, and holds it;
-- `unlock` and `wait` free the mutex that the thread holds; `signal` leaves the holder alone.
pub record IsPthread (p : Pthread) : Type 0 where
  pub lock_takes :
      (i : ℕ) (m m' : p.Mutex) → p.lock i m m' → (p.holder m ≡ none) × (p.holder m' ≡ some i)
  pub wake_takes :
      (i : ℕ) (m m' : p.Mutex) → p.wake i m m' → (p.holder m ≡ none) × (p.holder m' ≡ some i)
  pub unlock_frees : (i : ℕ) (m m' : p.Mutex) → p.unlock i m m' → p.holder m' ≡ none
  pub wait_frees : (i : ℕ) (m m' : p.Mutex) → p.wait i m m' → p.holder m' ≡ none
  pub signal_keeps : (i : ℕ) (m m' : p.Mutex) → p.signal i m m' → p.holder m' ≡ p.holder m

-- Where a thread stands, with the local `ret`: before a line of `push`, `pop` or `pop_nonblocking`,
-- or behind its return, with what it has returned.
pub data Pc (A : Type 0) : Type 0 where
  idle : Pc A
  push_lock push_push push_signal push_unlock : (t : A) → Pc A
  pop_lock pop_test pop_asleep : Pc A
  pop_pop pop_unlock : (ret : A) → Pc A
  try_lock try_test try_unlock_null : Pc A
  try_pop try_unlock : (ret : A) → Pc A
  pushed : Pc A
  returned : Option A → Pc A

-- Between the return of a call that locks and the call that unlocks or waits.
abbrev pub inside : {A : Type 0} → Pc A → Bool
inside idle = false
inside (push_lock _) = false
inside pop_lock = false
inside pop_asleep = false
inside try_lock = false
inside pushed = false
inside (returned _) = false
inside _ = true

module _ (p : Pthread) (A : Type 0) where
  open p use {Mutex, lock, unlock, wait, wake, signal}

  -- One line of thread `i`, on the mutex and the queue.
  pub data Move (i : ℕ) : Mutex → Queue A → Pc A → Mutex → Queue A → Pc A → Type 0 where
    calls_push : {m : Mutex} {q : Queue A} (t : A) → Move i m q idle m q (push_lock t)
    locks_push :
        {m m' : Mutex} {q : Queue A} {t : A}
        → lock i m m'
        → Move i m q (push_lock t) m' q (push_push t)
    pushes :
        {m : Mutex} {q : Queue A} {t : A} → Move i m q (push_push t) m (push q t) (push_signal t)
    signals :
        {m m' : Mutex} {q : Queue A} {t : A}
        → signal i m m'
        → Move i m q (push_signal t) m' q (push_unlock t)
    unlocks_push :
        {m m' : Mutex} {q : Queue A} {t : A}
        → unlock i m m'
        → Move i m q (push_unlock t) m' q pushed
    calls_pop : {m : Mutex} {q : Queue A} → Move i m q idle m q pop_lock
    locks_pop : {m m' : Mutex} {q : Queue A} → lock i m m' → Move i m q pop_lock m' q pop_test
    waits : {m m' : Mutex} → wait i m m' → Move i m [] pop_test m' [] pop_asleep
    wakes : {m m' : Mutex} {q : Queue A} → wake i m m' → Move i m q pop_asleep m' q pop_test
    reads_back :
        {m : Mutex} {x : A} {q : Queue A} → Move i m (x ∷ q) pop_test m (x ∷ q) (pop_pop (back x q))
    pops :
        {m : Mutex} {x ret : A} {q : Queue A} → Move i m (x ∷ q) (pop_pop ret) m q (pop_unlock ret)
    unlocks_pop :
        {m m' : Mutex} {q : Queue A} {ret : A}
        → unlock i m m'
        → Move i m q (pop_unlock ret) m' q (returned (some ret))
    calls_try : {m : Mutex} {q : Queue A} → Move i m q idle m q try_lock
    locks_try : {m m' : Mutex} {q : Queue A} → lock i m m' → Move i m q try_lock m' q try_test
    finds_none : {m : Mutex} → Move i m [] try_test m [] try_unlock_null
    unlocks_null :
        {m m' : Mutex} {q : Queue A}
        → unlock i m m'
        → Move i m q try_unlock_null m' q (returned none)
    tries_back :
        {m : Mutex} {x : A} {q : Queue A} → Move i m (x ∷ q) try_test m (x ∷ q) (try_pop (back x q))
    tries_pop :
        {m : Mutex} {x ret : A} {q : Queue A} → Move i m (x ∷ q) (try_pop ret) m q (try_unlock ret)
    unlocks_try :
        {m m' : Mutex} {q : Queue A} {ret : A}
        → unlock i m m'
        → Move i m q (try_unlock ret) m' q (returned (some ret))
    goes_on_pushed : {m : Mutex} {q : Queue A} → Move i m q pushed m q idle
    goes_on : {m : Mutex} {q : Queue A} {r : Option A} → Move i m q (returned r) m q idle

-- A thread's own entry in a family.
abbrev pub update {ℓ} : {B : Type ℓ} → (ℕ → B) → ℕ → B → ℕ → B
update f i b j = ite (ℕ_discrete i j) b (f j)

pub record System (p : Pthread) (A : Type 0) : Type 0 where
  pub mutex : p.Mutex
  pub queue : Queue A
  pub pc : ℕ → Pc A

module _ {p : Pthread} {A : Type 0} where
  -- `init`: the queue is empty, and nobody is in it.
  abbrev pub unused : p.Mutex → System p A
  unused m = record { mutex = m; queue = []; pc = λ i. idle }

  pub data Step (s : System p A) : System p A → Type 0 where
    moves :
        (i : ℕ) {m : p.Mutex} {q : Queue A} {c : Pc A}
        → Move p A i s.mutex s.queue (s.pc i) m q c
        → Step s (record { mutex = m; queue = q; pc = update s.pc i c })

  pub data Reach (s : System p A) : System p A → Type 0 where
    here : Reach s s
    next : {t u : System p A} → Reach s t → Step t u → Reach s u
