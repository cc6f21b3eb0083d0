-- ===== src/Miner/Examples.antt =====
-- A node at which a block arrives while it waits for a vote.
mod Rounds
mod Serving
use blockchain_voting.Base.{◌-◌, ◌≡◌, refl, some, [], ◌∷◌, map, ok, ◌>>◌}
use blockchain_voting.Block.{write_slot}
use blockchain_voting.Samples.{votes, hash, toy_sha1}
use blockchain_voting.SyncQueue.{push}
use blockchain_voting.Block.{Block, new_block}
use blockchain_voting.Block.Slots.{filled}
use blockchain_voting.Codec.{
  BlockMsg, encode_transaction, decode_block, outlived, decode_transaction,
}
use blockchain_voting.Server
use blockchain_voting.Server.{status_ok}
use blockchain_voting.Miner.{Miner}
use blockchain_voting.Miner.Samples.{idle}
use blockchain_voting.Miner.System.{at_pop, node, shared, receives_block, Reach, here, next}
use blockchain_voting.Miner.Waiting.{IsWaiting, Idled, Reach-Idled}

abbrev message : BlockMsg
message = record {
  block_number = 3;
  prev_block_sha1 = hash 4;
  magic = 0;
  merkle_root = hash 9;
  transaction_msg = map encode_transaction (votes 8 8);
  num_transactions = 8;
  verifier_public_key = [];
  final_hash = hash 5;
}

abbrev arrived : Block
arrived = outlived (record new_block {
  block_number = some 3;
  transaction_array = filled (votes 8 8) 0;
  max_ind = 8;
})

abbrev receiving : Miner
receiving = record idle { bq = arrived ∷ [] }

received_step :
    Server.broadcast_block (shared idle) message
    ≡ ok (record (shared idle) { bq = arrived ∷ [] }, status_ok)
unfolding Server.broadcast_block decode_block write_slot push decode_transaction encode_transaction
received_step = refl

abbrev waits : Reach toy_sha1 (node at_pop idle) (node at_pop receiving)
waits = next here (
    receives_block message (record (shared idle) { bq = arrived ∷ [] }, status_ok) received_step
      refl)

Reach-Idled_example : IsWaiting (node at_pop receiving) × Idled idle receiving (message ∷ [])
Reach-Idled_example =
    Reach-Idled (record { before_pop = refl; no_transactions = refl; room = refl }) waits refl
