-- ===== src/Blockchain/Repair.antt =====
-- processor.cpp, `get_parent_block_from_neighbor` and `blockchain::repair_blockchain`.
pub mod Walk
pub mod Rollback
pub mod Conserving
use blockchain_voting.Base.{
  ℕ, zero, suc, ◌+◌, Bool, true, false, not, Option, none, some, List, [], ◌∷◌, ◌++◌, ◌==◌, Result,
  ok, err, assertion, out_of_fuel, ◌>>=◌, ◌>>◌, assert, read,
}
use blockchain_voting.Memory.{CharPtr, first_char}
use blockchain_voting.Block.{Block, Transaction}
use blockchain_voting.SyncQueue.{Queue}
use blockchain_voting.Blockchain.{
  Blockchain, front, check_if_block_in_chain, remove_transactions_from_set, add_transactions_to_set,
  add_transactions_to_queue,
}

-- `blocks_.pop_front()` of a list that is not empty
abbrev pub pop_front : List Block → List Block
pop_front [] = []
pop_front (b ∷ bs) = bs

-- `while (blocks_.begin() != it)`, for an iterator `i` blocks away from the head.
unfoldable pub rollback :
    ℕ → Blockchain → Queue Transaction → Result (Blockchain × Queue Transaction)
rollback zero c q = ok (c, q)
rollback (suc i) c q = do
  first_block ← front c.blocks
  c' ← remove_transactions_from_set c first_block
  q' ← add_transactions_to_queue q first_block
  rollback i (record c' { blocks = pop_front c'.blocks }) q'

unfoldable pub add_each_to_set : List Block → Blockchain → Result Blockchain
add_each_to_set [] c = ok c
add_each_to_set (b ∷ bs) c = do c' ← add_transactions_to_set c b; add_each_to_set bs c'

-- `client->getBlock`; `none` is `NULL`.
abbrev pub Fetch : Type 0
Fetch = CharPtr → Result (Option Block)

module _ (fetch : Fetch) where
  unfoldable pub get_parent_block_from_neighbor : Block → Result (Option Block)
  get_parent_block_from_neighbor b = do
    p ← first_char b.prev_block_sha1
    assert (not (p == 0))
    f ← first_char b.finhash
    assert (not (f == 0))
    found ← fetch b.prev_block_sha1
    elim found [ none ↦ err assertion | some parent ↦ ok (some parent) ]

  -- The first loop of `repair_blockchain`: the iterator and `blocks_to_add`, or `none` for the
  -- `return false`. The `current_block` that the body declares hides the outer one and is passed to
  -- the call that initialises it: it is `stack n`, whatever the round finds in that variable, and
  -- the outer `current_block` stays as it is.
  unfoldable pub find_ancestor :
      (stack : ℕ → Option Block)
      → ℕ
      → Blockchain
      → Block
      → List Block
      → Result (Option (ℕ × List Block))
  find_ancestor stack zero c current_block blocks_to_add = err out_of_fuel
  find_ancestor stack (suc n) c current_block blocks_to_add = do
    it ← check_if_block_in_chain c current_block
    elim it [
      | some i ↦ ok (some (i, blocks_to_add))
      | none ↦ do
        inner ← read (stack n)
        parent ← get_parent_block_from_neighbor inner
        elim parent [
          | none ↦ ok none
          | some _ ↦ find_ancestor stack n c current_block (blocks_to_add ++ current_block ∷ [])
        ]
    ]

  unfoldable pub repair_blockchain :
      (stack : ℕ → Option Block)
      → ℕ
      → Blockchain
      → Queue Transaction
      → Block
      → Result (Blockchain × Queue Transaction × Bool)
  repair_blockchain stack fuel c q b = do
    found ← find_ancestor stack fuel c b []
    elim found [
      | none ↦ ok (c, q, false)
      | some (i, blocks_to_add) ↦ do
        (c', q') ← rollback i c q
        c'' ← add_each_to_set blocks_to_add c'
        ok (record c'' { blocks = blocks_to_add ++ c''.blocks }, q', true)
    ]
