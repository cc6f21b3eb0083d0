-- ===== src/Blockchain/Examples.antt =====
-- Chains of one and two blocks.
use blockchain_voting.Base.{
  ◌≡◌, refl, inl, inr, true, map, none, some, [], ◌∷◌, arith, ok, bytes_eq,
}
use blockchain_voting.Memory.{buf, same_hash}
use blockchain_voting.Block.{Block, Transaction, read_slots}
use blockchain_voting.SyncQueue.{push_all, Queue}
use blockchain_voting.Samples.{votes, hash, full_block}
use blockchain_voting.Blockchain.{
  Blockchain, starting_block, init, get_block_by_number, get_block_by_hash, check_if_block_in_chain,
  add_block, check_block_validity, block_ok, transaction_invalid, get_head_block,
  verify_transactions, insert_keys,
}
use blockchain_voting.Blockchain.Adding.{added, numbered, add_block-ok}
use blockchain_voting.Blockchain.Lookup.{get_block-add_block}
use blockchain_voting.Blockchain.Voters.{IsConsistent}
use blockchain_voting.Blockchain.Validity.{
  check_block_validity-eq, add_block-IsConsistent, added-IsConsistent, init-IsConsistent,
}
use blockchain_voting.Blockchain.Repair.{repair_blockchain, Fetch}
use blockchain_voting.Blockchain.Repair.Walk.{repair_blockchain_absent}
use blockchain_voting.Blockchain.Tally.{put_all, vote_in_box, chain_transactions}
use blockchain_voting.Blockchain.Repair.Rollback.{RolledBack, repair_blockchain_present}
use blockchain_voting.Blockchain.Repair.Conserving.{repair_blockchain_conserves, votes_on}

abbrev first_chain : Blockchain
first_chain = init (0, 0)

-- The votes of 8 down to 1 on top of the first block.
abbrev base_block : Block
base_block = full_block 8 (hash 4) (hash 5)

abbrev chain : Blockchain
chain = added first_chain base_block (votes 8 8)

-- The votes of 28 down to 21 on top of that.
abbrev next_block : Block
next_block = full_block 28 (hash 5) (hash 6)

chain-IsConsistent : IsConsistent chain
unfolding read_slots
chain-IsConsistent =
    added-IsConsistent first_chain base_block (votes 8 8) (init-IsConsistent (0, 0)) refl refl
      (refl, (refl, (refl, (refl, (refl, (refl, (refl, (refl, tt))))))))

check_block_validity-eq_example : check_block_validity chain next_block ≡ ok block_ok
unfolding insert_keys bytes_eq
check_block_validity-eq_example =
    check_block_validity-eq chain next_block (numbered first_chain base_block)
      (starting_block (0, 0) ∷ []) (hash 5) (hash 5) (omega arith) refl refl refl (omega arith)
      (omega arith) (votes 8 28) refl refl

-- A second vote of 8.
voted_again : check_block_validity chain (full_block 8 (hash 5) (hash 6)) ≡ ok transaction_invalid
unfolding insert_keys bytes_eq check_block_validity get_head_block same_hash verify_transactions
voted_again = refl

add_block-IsConsistent_example :
    (c' : Blockchain) × (add_block chain next_block ≡ ok (c', numbered chain next_block))
    × (c'.blocks ≡ numbered chain next_block ∷ chain.blocks)
    × (c'.chain_length ≡ 3)
    × IsConsistent c'
add_block-IsConsistent_example =
    add_block-IsConsistent chain next_block chain-IsConsistent refl check_block_validity-eq_example

get_block-add_block_example :
    (get_block_by_hash chain (buf (hash 5)) ≡ ok (some (numbered first_chain base_block)))
    × (get_block_by_number chain 2 ≡ ok (some (numbered first_chain base_block)))
    × (get_head_block chain ≡ ok (numbered first_chain base_block))
unfolding read_slots
get_block-add_block_example =
    get_block-add_block first_chain chain base_block (numbered first_chain base_block) (hash 5)
      (add_block-ok first_chain base_block (votes 8 8) refl) refl (omega arith)

-- Peers that answer every request with the base block.
abbrev answering : Fetch
answering hash = ok (some base_block)

next_block_absent : check_if_block_in_chain chain next_block ≡ ok none
unfolding check_if_block_in_chain same_hash
next_block_absent = refl

repair_blockchain_absent_example : ¬ (
    repair_blockchain answering (λ n. some base_block) 100 chain [] next_block
    ≡ ok (chain, [], true))
repair_blockchain_absent_example =
    repair_blockchain_absent answering (λ n. some base_block) chain next_block 100 []
      (chain, [], true) next_block_absent

-- The chain with the votes of 28 down to 21, too.
abbrev longer : Blockchain
longer = added chain next_block (votes 8 28)

longer-IsConsistent : IsConsistent longer
unfolding read_slots insert_keys bytes_eq
longer-IsConsistent =
    added-IsConsistent chain next_block (votes 8 28) chain-IsConsistent refl refl
      (refl, (refl, (refl, (refl, (refl, (refl, (refl, (refl, tt))))))))

-- The repair goes back to the base block, and eight votes to the queue.
repair_blockchain_present_example :
    (c' : Blockchain) × (repair_blockchain answering (λ n. none) 1 longer [] base_block
      ≡ ok (c', push_all [] (votes 8 28), true))
    × RolledBack 1 longer c'
unfolding check_if_block_in_chain same_hash read_slots
repair_blockchain_present_example =
    repair_blockchain_present answering (λ n. none) 0 1 longer [] base_block
      (record { ts = votes 8 28; back = votes 8 28; written = refl; kept = refl }, tt) refl
      longer-IsConsistent

-- The votes of 28 down to 21 in a block that was mined here.
abbrev mined_block : Block
mined_block = record (full_block 28 (hash 5) (hash 6)) { max_ind = 0 }

abbrev mined_chain : Blockchain
mined_chain = added chain mined_block (votes 8 28)

mined_chain-IsConsistent : IsConsistent mined_chain
unfolding read_slots insert_keys bytes_eq
mined_chain-IsConsistent =
    added-IsConsistent chain mined_block (votes 8 28) chain-IsConsistent refl refl
      (refl, (refl, (refl, (refl, (refl, (refl, (refl, (refl, tt))))))))

-- And the votes of 38 down to 31 on top of it.
abbrev top_block : Block
top_block = full_block 38 (hash 6) (hash 7)

abbrev top_chain : Blockchain
top_chain = added mined_chain top_block (votes 8 38)

top_chain-IsConsistent : IsConsistent top_chain
unfolding read_slots insert_keys bytes_eq
top_chain-IsConsistent =
    added-IsConsistent mined_chain top_block (votes 8 38) mined_chain-IsConsistent refl refl
      (refl, (refl, (refl, (refl, (refl, (refl, (refl, (refl, tt))))))))

-- With the vote of 41 in the queue, the repair goes back to the base block.
repair_blockchain_conserves_example :
    (c' : Blockchain) × (q' : Queue Transaction) × (repair_blockchain answering
        (λ n. none)
        1
        top_chain
        (votes 1 41)
        base_block
      ≡ ok (c', q', true))
    × (put_all
          (map vote_in_box (chain_transactions (numbered chain mined_block ∷ [])))
          (votes_on c' q')
        ≡ votes_on top_chain (votes 1 41))
    × RolledBack 2 top_chain c'
unfolding check_if_block_in_chain same_hash read_slots
repair_blockchain_conserves_example =
    repair_blockchain_conserves answering (λ n. none) 0 2 top_chain (votes 1 41) base_block refl
      top_chain-IsConsistent ((inr refl, votes 8 38, refl), ((inl refl, votes 8 28, refl), tt))
