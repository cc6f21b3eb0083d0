-- ===== src/Blockchain/Advance.antt =====
-- The ways in which the chain of a node moves, seen from `blockchain` (processor.cpp).
use blockchain_voting.Base.{ℕ, ◌<◌, ◌≡◌, false, List, length, drop, All, ok}
use blockchain_voting.Block.{Block, Transaction, num_transactions_per_block, read_slots}
use blockchain_voting.Blockchain.{Blockchain}
use blockchain_voting.Blockchain.Adding.{added}

-- The chain stays, takes a whole block of voters who have not voted, or loses its newest blocks.
pub data Advance (c c' : Blockchain) : Type 0 where
  stays : c' ≡ c → Advance c c'
  grows :
      (b : Block) (ts : List Transaction)
      → length b.transaction_array ≡ num_transactions_per_block
      → read_slots num_transactions_per_block b.transaction_array ≡ ok ts
      → All (λ t. c.voted t.sender_public_key ≡ false) ts
      → c' ≡ added c b ts
      → Advance c c'
  cut : (i : ℕ) → i < length c.blocks → c'.blocks ≡ drop i c.blocks → Advance c c'
