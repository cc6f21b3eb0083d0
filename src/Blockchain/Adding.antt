-- ===== src/Blockchain/Adding.antt =====
-- What `add_block` of processor.cpp leaves behind.
use blockchain_voting.Base.{◌+◌, ◌≡◌, refl, some, List, ◌∷◌, arith, Result, ok, err, ◌>>=◌}
use blockchain_voting.Block.{Block, Transaction, num_transactions_per_block, read_slots, keys}
use blockchain_voting.Blockchain.{Blockchain, insert_keys, add_transactions_to_set, add_block}

-- The block once it is in the chain, and the chain with it.
abbrev pub numbered : Blockchain → Block → Block
numbered c b = record b { block_number = some (c.chain_length + 1) }

abbrev pub added : Blockchain → Block → List Transaction → Blockchain
added c b ts = record {
  chain_length = c.chain_length + 1;
  blocks = numbered c b ∷ c.blocks;
  voted = insert_keys (keys ts) c.voted;
}

abbrev hand_back : Block → Blockchain → Result (Blockchain × Block)
hand_back b c = ok (c, b)

pub add_block-ok :
    (c : Blockchain) (b : Block) (ts : List Transaction)
    → read_slots num_transactions_per_block b.transaction_array ≡ ok ts
    → add_block c b ≡ ok (added c b ts, numbered c b)
unfolding add_block add_transactions_to_set
add_block-ok c b ts e = rw e

pub add_block-inv :
    (c c' : Blockchain) (b b' : Block)
    → add_block c b ≡ ok (c', b')
    → (ts : List Transaction) × (read_slots num_transactions_per_block b.transaction_array ≡ ok ts)
      × (c' ≡ added c b ts)
      × (b' ≡ numbered c b)
unfolding add_block add_transactions_to_set
add_block-inv c c' b b' h = go (read_slots num_transactions_per_block b.transaction_array) refl h
  where
    go :
        (r : Result (List Transaction))
        → read_slots num_transactions_per_block b.transaction_array ≡ r
        → ((r >>= λ ts. ok (added c b ts)) >>= hand_back (numbered c b)) ≡ ok (c', b')
        → (ts : List Transaction) × (read_slots num_transactions_per_block b.transaction_array
            ≡ ok ts)
          × (c' ≡ added c b ts)
          × (b' ≡ numbered c b)
    go (err e) p q = cc
    go (ok ts) p q = (ts, p, ground arith, ground arith)
