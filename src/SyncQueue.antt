-- ===== src/SyncQueue.antt =====
-- processor.cpp, `synchronized_queue`. Each method holds the mutex from its first access of the
-- queue to its last, so a method is one step. The front is the head of the list.
pub mod Order
pub mod Threads
mod Examples
use blockchain_voting.Base.{
  ℕ, zero, suc, Bool, Option, none, some, List, [], ◌∷◌, ◌++◌, ◌==◌, length,
}

abbrev pub Queue {ℓ} : Type ℓ → Type ℓ
Queue A = List A

module _ {ℓ} {A : Type ℓ} where
  -- `init` sets up the mutex and the condition variable of an empty queue.
  abbrev pub init : Queue A
  init = []

  unfoldable pub push : Queue A → A → Queue A
  push q t = q ++ t ∷ []

  -- `queue_.back()` of a queue with front `x`
  unfoldable pub back : A → Queue A → A
  back x [] = x
  back x (y ∷ q) = back y q

  -- `ret = queue_.back(); queue_.pop();`
  unfoldable pub take_out : Queue A → Option (A × Queue A)
  unfolding back
  take_out [] = none
  take_out (x ∷ q) = some (back x q, q)

  -- `none` is the thread that waits on the condition variable.
  unfoldable pub pop : Queue A → Option (A × Queue A)
  unfolding take_out
  pop q = take_out q

  -- `none` is `NULL`.
  unfoldable pub pop_nonblocking : Queue A → Option (A × Queue A)
  unfolding take_out
  pop_nonblocking q = take_out q

  unfoldable pub empty : Queue A → Bool
  empty q = length q == 0

  -- `while (x = pop_nonblocking()) …`: what the body is run on, in order, within `n` rounds.
  unfoldable pub drain : ℕ → Queue A → List A
  drain zero q = []
  drain (suc n) q = elim (pop_nonblocking q) [ none ↦ [] | some (x, q') ↦ x ∷ drain n q' ]

  -- A loop that pushes the elements of a list, in order.
  unfoldable pub push_all : Queue A → List A → Queue A
  unfolding push
  push_all q [] = q
  push_all q (t ∷ ts) = push_all (push q t) ts
