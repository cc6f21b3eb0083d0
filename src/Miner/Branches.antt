-- ===== src/Miner/Branches.antt =====
-- How `processing_thread` (peer.cpp) puts a block on the chain.
use blockchain_voting.Base.{◌+◌, ◌<◌, ◌≡◌, true, List, ◌++◌, map, arith, leb, ok, Bytes}
use blockchain_voting.Block.{Block, Transaction, num_transactions_per_block, read_slots}
use blockchain_voting.Blockchain.Adding.{added, numbered, add_block-ok}
use blockchain_voting.Codec.{BlockMsg}
use blockchain_voting.Client
use blockchain_voting.Miner.{Miner, sent_block, append_block, send_block, last_number}

pub append_block-ok :
    (m : Miner) (b : Block) (ts : List Transaction) (messages : List (Bytes × BlockMsg))
    → read_slots num_transactions_per_block b.transaction_array ≡ ok ts
    → m.bc.chain_length < last_number
    → Client.broadcast_block m.client (numbered m.bc b) ≡ ok messages
    → append_block m b
      ≡ ok (record m { bc = added m.bc b ts; sent = m.sent ++ map sent_block messages })
unfolding append_block send_block
append_block-ok m b ts messages written low sent =
    let within : leb (m.bc.chain_length + 1) last_number ≡ true = (ground arith) in
    rw (add_block-ok m.bc b ts written, within, sent)
