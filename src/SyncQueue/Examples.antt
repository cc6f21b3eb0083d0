-- ===== src/SyncQueue/Examples.antt =====
-- Runs of the queue.
use blockchain_voting.Base.{ℕ, ◌+◌, ◌≡◌, refl, some, List, [], ◌∷◌, arith, length}
use blockchain_voting.SyncQueue.{push, pop, drain, back, init}
use blockchain_voting.SyncQueue.Order.{drain-push, pop_not_fifo}

abbrev waiting : List ℕ
waiting = 5 ∷ 6 ∷ []

drain-push_example : drain (length (push waiting 7) + 0) (push waiting 7) ≡ 7 ∷ 7 ∷ 7 ∷ []
unfolding push
drain-push_example = drain-push waiting 7 0

oldest_waits : ¬ ((rest : List ℕ) × (pop (push (4 ∷ waiting) 7) ≡ some (4, rest)))
oldest_waits = pop_not_fifo waiting 4 7 (omega arith)

three_pushes : pop {A = ℕ} (push (push (push init 1) 2) 3) ≡ some (3, 2 ∷ 3 ∷ [])
unfolding push pop back
three_pushes = refl
