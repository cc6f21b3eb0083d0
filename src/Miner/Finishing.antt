-- ===== src/Miner/Finishing.antt =====
-- How `processing_thread` (peer.cpp) finishes a block of its own, and gives one up.
use blockchain_voting.Base.{
  ◌<◌, ◌≡◌, refl, subst, false, List, [], ◌∷◌, ◌++◌, map, All, ok, >>=-eq-ok, ok-injective, Bytes,
}
use blockchain_voting.Miner.Branches.{append_block-ok}
use blockchain_voting.Block.{num_transactions_per_block, read_slots, Block, Transaction, new_block}
use blockchain_voting.Blockchain.{get_head_block}
use blockchain_voting.Blockchain.Adding.{added, numbered}
use blockchain_voting.Codec.{BlockMsg, encode_block}
use blockchain_voting.Codec.Mined.{encode_block_empty}
use blockchain_voting.Client.{SinglePeerClient, Client, broadcast_block}
use blockchain_voting.Client
use blockchain_voting.Miner.{Miner, sent_block, finish_block, last_number}

-- A message that carries no transaction.
abbrev pub IsEmpty : Bytes × BlockMsg → Type 0
IsEmpty (_, m) = (m.transaction_msg ≡ []) × (m.num_transactions ≡ 0)

send_block-IsEmpty :
    (b : Block) (ps : List SinglePeerClient) (messages : List (Bytes × BlockMsg))
    → b.max_ind ≡ 0
    → Client.send_block b ps ≡ ok messages
    → All IsEmpty messages
unfolding Client.send_block
send_block-IsEmpty b [] messages zero_ind e = subst (All IsEmpty) (ok-injective e) tt
send_block-IsEmpty b (p ∷ ps) messages zero_ind e =
    let (m, f, g) = >>=-eq-ok (encode_block b) _ e in
    let (others, k, l) = >>=-eq-ok (Client.send_block b ps) _ g in
    subst (All IsEmpty) (ok-injective l)
      (encode_block_empty b m zero_ind f, send_block-IsEmpty b ps others zero_ind k)

pub broadcast_block-IsEmpty :
    (c : Client.Client) (b : Block) (messages : List (Bytes × BlockMsg))
    → b.max_ind ≡ 0
    → Client.broadcast_block c b ≡ ok messages
    → All IsEmpty messages
unfolding Client.broadcast_block
broadcast_block-IsEmpty c b messages zero_ind e =
    send_block-IsEmpty b c.peer_clients messages zero_ind e

-- A block that is mined on a head block, with all its slots written, is finished while the chain is
-- shorter than five blocks, if the result can be sent to the peers: it goes on the chain under the
-- next number, with the head's hash as its previous hash, its voters go into the set, and the miner
-- begins a new working block. But its `max_ind` is 0 by then, so that every message sent carries no
-- transaction.
pub finish_block-ok :
    (sha1 : Bytes → Bytes) (m : Miner) (w head : Block) (ts : List Transaction)
    (messages : List (Bytes × BlockMsg))
    → get_head_block m.bc ≡ ok head
    → read_slots num_transactions_per_block w.transaction_array ≡ ok ts
    → m.bc.chain_length < last_number
    → Client.broadcast_block m.client
        (numbered m.bc (record w { max_ind = 0; prev_block_sha1 = head.finhash }))
      ≡ ok messages
    → (finish_block sha1 m w
        ≡ ok (record m {
          bc = added m.bc (record w { max_ind = 0; prev_block_sha1 = head.finhash }) ts;
          quotafull = false;
          working_block = new_block;
          sent = m.sent ++ map sent_block messages;
        }))
      × All IsEmpty messages
unfolding finish_block
finish_block-ok sha1 m w head ts messages at written low sending =
    let b = record w { max_ind = 0; prev_block_sha1 = head.finhash } in
    (
      rw (at, append_block-ok (record m { quotafull = false }) b ts messages written low sending),
      broadcast_block-IsEmpty m.client (numbered m.bc b) messages refl sending,
    )
