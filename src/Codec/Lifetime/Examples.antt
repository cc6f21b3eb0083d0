-- ===== src/Codec/Lifetime/Examples.antt =====
-- A message with three votes, and the block that it leaves behind.
use blockchain_voting.Base.{
  ◌≡◌, refl, dangling, arith, none, some, [], ◌∷◌, map, ◌==◌, if◌then◌else◌, Result, ok, err, ◌>>=◌,
}
use blockchain_voting.Codec.RoundTrip.{IsRelayable}
use blockchain_voting.Samples.{votes, hash}
use blockchain_voting.Block.{Block, new_block, write_slot}
use blockchain_voting.SyncQueue.{push}
use blockchain_voting.Codec.{
  BlockMsg, encode_block, decode_block, decode_slots, encode_transaction, decode_transaction,
}
use blockchain_voting.Codec.Lifetime.{
  Heap, BlockObject, new_message, decode_block_object, view, delete_message, receive_block,
  fetch_block,
}
use blockchain_voting.Codec.Lifetime.Dangling.{encode_block-view, Outlived, receive_block-Outlived}

abbrev message : BlockMsg
message = record {
  block_number = 2;
  prev_block_sha1 = hash 4;
  magic = 77;
  merkle_root = hash 9;
  transaction_msg = map encode_transaction (votes 3 8);
  num_transactions = 3;
  verifier_public_key = 65 ∷ [];
  final_hash = hash 5;
}

-- A heap that holds one other string.
abbrev heap : Heap
heap = record { next = 1; cell = λ p. if p == 0 then some (66 ∷ 0 ∷ []) else none }

relayable : IsRelayable message
relayable = record {
  prev = refl;
  merkle = refl;
  hash = refl;
  nul_free = (omega arith, tt);
  count = refl;
  small = omega arith;
}

encode_block-view_example :
    (o : BlockObject) × (decode_block_object (new_message heap message).1 ≡ ok o)
    × ((view (new_message heap message).0 o >>= encode_block) ≡ ok message)
    × (view (delete_message (new_message heap message).1 (new_message heap message).0) o
        ≡ err dangling)
encode_block-view_example = encode_block-view heap message relayable

abbrev block_or : Block → Result Block → Block
block_or d (ok b) = b
block_or d (err e) = d

abbrev decoded : Block
decoded = block_or new_block (decode_block message)

decodes : decode_block message ≡ ok decoded
unfolding decode_block decode_slots write_slot decode_transaction encode_transaction
decodes = refl

receive_block-Outlived_example :
    (h' : Heap) × (o : BlockObject) × (receive_block heap [] message ≡ ok (h', push [] o))
    × (fetch_block heap (some message) ≡ ok (h', some o))
    × Outlived h' o decoded
receive_block-Outlived_example = receive_block-Outlived heap [] message decoded decodes
