-- ===== src/SyncQueue/Threads/Atomic.antt =====
-- That the methods of `synchronized_queue` (processor.cpp) are atomic: what their threads do line
-- by line is what they do with one step for each call.
use blockchain_voting.Base.{
  ℕ, ◌≡◌, refl, sym, ap, subst, ◌∙◌, fun_ext, ◌⊎◌, inl, inr, Option, none, some, [], ◌∷◌, read,
}
use mathlib.Core.Option.{some-injective}
use mathlib.Core.Logic.{ite}
use native.Mathlib.Decide.{ℕ_discrete}
use blockchain_voting.SyncQueue.{Queue, push, back, pop, pop_nonblocking}
use blockchain_voting.SyncQueue.Threads.{
  Pthread, IsPthread, Pc, Move, update, System, unused, Step, moves, Reach, here, next,
}
use blockchain_voting.SyncQueue.Threads.Locking.{HasRead, Reach-Inv}

-- What a thread is about to have done, or has got.
pub data Call (A : Type 0) : Type 0 where
  outside : Call A
  wants_push : A → Call A
  wants_pop wants_try : Call A
  has_pushed : Call A
  has : Option A → Call A

-- A call begins, takes effect in one step, or ends. A `pop` of an empty queue does not take effect.
pub data AtomicMove {A : Type 0} : Queue A → Call A → Queue A → Call A → Type 0 where
  begins_push : {q : Queue A} (t : A) → AtomicMove q outside q (wants_push t)
  begins_pop : {q : Queue A} → AtomicMove q outside q wants_pop
  begins_try : {q : Queue A} → AtomicMove q outside q wants_try
  does_push : {q : Queue A} {t : A} → AtomicMove q (wants_push t) (push q t) has_pushed
  does_pop :
      {q q' : Queue A} {ret : A}
      → pop q ≡ some (ret, q')
      → AtomicMove q wants_pop q' (has (some ret))
  does_try :
      {q q' : Queue A} {ret : A}
      → pop_nonblocking q ≡ some (ret, q')
      → AtomicMove q wants_try q' (has (some ret))
  does_nothing : {q : Queue A} → pop_nonblocking q ≡ none → AtomicMove q wants_try q (has none)
  ends_push : {q : Queue A} → AtomicMove q has_pushed q outside
  ends : {q : Queue A} {r : Option A} → AtomicMove q (has r) q outside

pub record Atomic (A : Type 0) : Type 0 where
  pub queue : Queue A
  pub calls : ℕ → Call A

pub data AtomicStep {A : Type 0} (s : Atomic A) : Atomic A → Type 0 where
  acts :
      (i : ℕ) {q : Queue A} {c : Call A}
      → AtomicMove s.queue (s.calls i) q c
      → AtomicStep s (record { queue = q; calls = update s.calls i c })

-- Nobody has called anything.
abbrev pub at_rest : {A : Type 0} → Atomic A
at_rest = record { queue = []; calls = λ i. outside }

pub data AtomicReach {A : Type 0} (s : Atomic A) : Atomic A → Type 0 where
  begun : AtomicReach s s
  goes : {t u : Atomic A} → AtomicReach s t → AtomicStep t u → AtomicReach s u

-- A thread's call as it stands: it has taken effect once the queue has changed, or is seen empty.
abbrev pub call_of : {A : Type 0} → Pc A → Call A
call_of Pc.idle = outside
call_of (Pc.push_lock t) = wants_push t
call_of (Pc.push_push t) = wants_push t
call_of (Pc.push_signal t) = has_pushed
call_of (Pc.push_unlock t) = has_pushed
call_of Pc.pushed = has_pushed
call_of Pc.pop_lock = wants_pop
call_of Pc.pop_test = wants_pop
call_of Pc.pop_asleep = wants_pop
call_of (Pc.pop_pop ret) = wants_pop
call_of (Pc.pop_unlock ret) = has (some ret)
call_of Pc.try_lock = wants_try
call_of Pc.try_test = wants_try
call_of Pc.try_unlock_null = has none
call_of (Pc.try_pop ret) = wants_try
call_of (Pc.try_unlock ret) = has (some ret)
call_of (Pc.returned r) = has r

module _ {p : Pthread} {A : Type 0} where
  -- The queue and the calls of the threads, without the mutex.
  abbrev pub view : System p A → Atomic A
  view s = record { queue = s.queue; calls = λ i. call_of (s.pc i) }

pop_read :
    {A : Type 0} (x ret : A) (q : Queue A)
    → (rest : Queue A) × (pop (x ∷ q) ≡ some (ret, rest))
    → (pop (x ∷ q) ≡ some (ret, q)) × (pop_nonblocking (x ∷ q) ≡ some (ret, q))
unfolding pop pop_nonblocking
pop_read x ret q (rest, e) =
    let same : back x q ≡ ret = ap (λ r. r.0) (some-injective _ _ e) in
    (ap (λ r. some (r, q)) same, ap (λ r. some (r, q)) same)

Move-AtomicMove :
    {p : Pthread} {A : Type 0} {i : ℕ} {m m' : p.Mutex} {q q' : Queue A} {c c' : Pc A}
    → Move p A i m q c m' q' c'
    → HasRead q c
    → AtomicMove q (call_of c) q' (call_of c') ⊎ ((q' ≡ q) × (call_of c' ≡ call_of c))
unfolding pop_nonblocking
Move-AtomicMove (Move.calls_push t) h = inl (begins_push t)
Move-AtomicMove Move.calls_pop h = inl begins_pop
Move-AtomicMove Move.calls_try h = inl begins_try
Move-AtomicMove Move.pushes h = inl does_push
Move-AtomicMove (Move.pops {x = x} {ret = ret} {q = q}) h = inl (does_pop (pop_read x ret q h).0)
Move-AtomicMove (Move.tries_pop {x = x} {ret = ret} {q = q}) h =
    inl (does_try (pop_read x ret q h).1)
Move-AtomicMove Move.finds_none h = inl (does_nothing refl)
Move-AtomicMove Move.goes_on_pushed h = inl ends_push
Move-AtomicMove Move.goes_on h = inl ends
Move-AtomicMove _ h = inr (refl, refl)

update-call_of :
    {A : Type 0} (pc : ℕ → Pc A) (i : ℕ) (c : Pc A)
    → ◌≡◌ {A = ℕ → Call A}
        (λ j. call_of (update pc i c j))
        (update (λ j. call_of (pc j)) i (call_of c))
update-call_of pc i c = fun_ext (λ j.
    elim (ℕ_discrete i j) as (λ d. call_of (ite d c (pc j)) ≡ ite d (call_of c) (call_of (pc j))) [
      | yes e ↦ refl
      | no other ↦ refl
    ])

update_same :
    {A : Type 0} (pc : ℕ → Pc A) (i : ℕ) (c : Pc A)
    → call_of c ≡ call_of (pc i)
    → ◌≡◌ {A = ℕ → Call A} (λ j. call_of (update pc i c j)) (λ j. call_of (pc j))
update_same pc i c same = fun_ext (λ j.
    elim (ℕ_discrete i j) as (λ d. call_of (ite d c (pc j)) ≡ call_of (pc j)) [
      | yes e ↦ same ∙ ap (λ k. call_of (pc k)) e
      | no other ↦ refl
    ])

module _ {p : Pthread} (law : IsPthread p) {A : Type 0} where
  Step-AtomicReach :
      {a : Atomic A} {s t : System p A}
      → ((i : ℕ) → HasRead s.queue (s.pc i))
      → Step s t
      → AtomicReach a (view s)
      → AtomicReach a (view t)
  Step-AtomicReach {a} {s} read (moves i {q = q} {c = c} mv) r =
      elim (Move-AtomicMove mv (read i)) [
        | inl act ↦
            subst (λ f. AtomicReach a (record { queue = q; calls = f }))
              (sym (update-call_of s.pc i c)) (goes r (acts i act))
        | inr (same, still) ↦
            subst (λ f. AtomicReach a (record { queue = q; calls = f }))
              (sym (update_same s.pc i c still))
              (subst (λ x. AtomicReach a (record { queue = x; calls = (view s).calls })) (sym same)
                r)
      ]

  -- The queue is atomic. Over a mutex that behaves as pthread documents, and however any number of
  -- threads run through the lines of `push`, `pop` and `pop_nonblocking`: the queue and what each
  -- call has returned are those of a run in which each call takes effect in one step, between its
  -- beginning and its end.
  pub Reach-AtomicReach :
      {m : p.Mutex} {s : System p A} → Reach (unused m) s → AtomicReach at_rest (view s)
  Reach-AtomicReach here = begun
  Reach-AtomicReach (next r st) =
      Step-AtomicReach (Reach-Inv law r).has_read st (Reach-AtomicReach r)
