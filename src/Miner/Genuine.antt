-- ===== src/Miner/Genuine.antt =====
-- Where the transactions of a node may stand (processor.hpp, peer.cpp): in its queues, its chain,
-- its working block and the messages that it has sent.
pub mod Mending
pub mod Mining
use blockchain_voting.Base.{
  ◌-◌, ◌≡◌, sym, subst, List, [], ◌∷◌, map, All, ok, ◌>>=◌, ◌>>◌, read, >>=-eq-ok, ok-injective,
  Bytes, All-append,
}
use blockchain_voting.Block.{Block, Transaction, rounds, new_block, num_transactions_per_block}
use blockchain_voting.Block.Contents.{Each, read_slots-EachSlot, EachSlot-replicate}
use blockchain_voting.SyncQueue.{Queue, push, push_all}
use blockchain_voting.Blockchain.Adding.{numbered}
use blockchain_voting.Codec.{TransactionMsg, BlockMsg, encode_transaction, encode_block}
use blockchain_voting.Codec.Mined.{encode_block-read}
use blockchain_voting.Client
use blockchain_voting.Client.{SinglePeerClient}
use blockchain_voting.Miner.{Miner, Sent, sent_block, sent_transaction, append_block, restart}
use blockchain_voting.Miner.Accepting.{append_block-inv, restart-inv}

module _ (Q : TransactionMsg → Type 0) where
  -- A transaction with a good message.
  abbrev pub Good : Transaction → Type 0
  Good t = Q (encode_transaction t)

  abbrev pub GoodSent : Sent → Type 0
  GoodSent (sent_block (addr, m)) = All Q m.transaction_msg
  GoodSent (sent_transaction (addr, m)) = Q m

  pub record Genuine (m : Miner) : Type 0 where
    pub queued : All Good m.tq
    pub blocks_queued : All (Each Good) m.bq
    pub chain : All (Each Good) m.bc.blocks
    pub working : Each Good m.working_block
    pub sent : All GoodSent m.sent

  pub Each-new_block : Each Good new_block
  Each-new_block = EachSlot-replicate Good num_transactions_per_block

  pub push-All :
      (q : Queue Transaction) (t : Transaction) → All Good q → Good t → All Good (push q t)
  unfolding push
  push-All q t a g = All-append Good q (t ∷ []) a (g, tt)

  pub push_all-All : (q ts : List Transaction) → All Good q → All Good ts → All Good (push_all q ts)
  unfolding push_all
  push_all-All q [] a b = a
  push_all-All q (t ∷ ts) a b = push_all-All (push q t) ts (push-All q t a b.0) b.1

  All-encoded : (ts : List Transaction) → All Good ts → All Q (map encode_transaction ts)
  All-encoded [] a = tt
  All-encoded (t ∷ ts) a = (a.0, All-encoded ts a.1)

  encode_block-All :
      (b : Block) (msg : BlockMsg)
      → encode_block b ≡ ok msg
      → Each Good b
      → All Q msg.transaction_msg
  encode_block-All b msg e g =
      let (ts, read, same) = encode_block-read b msg e in
      subst (All Q) (sym same)
        (All-encoded ts (read_slots-EachSlot Good (rounds b.max_ind) b.transaction_array ts read g))

  send_block-All :
      (b : Block) (ps : List SinglePeerClient) (messages : List (Bytes × BlockMsg))
      → Client.send_block b ps ≡ ok messages
      → Each Good b
      → All GoodSent (map sent_block messages)
  unfolding Client.send_block
  send_block-All b [] messages e g =
      subst (λ ms. All GoodSent (map sent_block ms)) (ok-injective e) tt
  send_block-All b (p ∷ ps) messages e g =
      let (m, f, h) = >>=-eq-ok (encode_block b) _ e in
      let (others, k, l) = >>=-eq-ok (Client.send_block b ps) _ h in
      subst (λ ms. All GoodSent (map sent_block ms)) (ok-injective l)
        (encode_block-All b m f g, send_block-All b ps others k g)

  pub broadcast_block-All :
      (c : Client.Client) (b : Block) (messages : List (Bytes × BlockMsg))
      → Client.broadcast_block c b ≡ ok messages
      → Each Good b
      → All GoodSent (map sent_block messages)
  unfolding Client.broadcast_block
  broadcast_block-All c b messages e g = send_block-All b c.peer_clients messages e g

  pub append_block-Genuine :
      (m m' : Miner) (b : Block) → append_block m b ≡ ok m' → Each Good b → Genuine m → Genuine m'
  append_block-Genuine m m' b e g v =
      let (ts, messages, _, _, sending, at) = append_block-inv m m' b e in
      subst Genuine (sym at) (record {
        queued = v.queued;
        blocks_queued = v.blocks_queued;
        chain = (g, v.chain);
        working = v.working;
        sent =
            All-append GoodSent m.sent (map sent_block messages) v.sent
              (broadcast_block-All m.client (numbered m.bc b) messages sending g);
      })

  pub restart-Genuine : (m m' : Miner) → restart m ≡ ok m' → Genuine m → Genuine m'
  restart-Genuine m m' e v =
      let (ts, read, at) = restart-inv m m' e in
      let w = m.working_block in
      let back =
        read_slots-EachSlot Good (rounds w.max_ind) w.transaction_array ts read v.working in
      subst Genuine (sym at) (record {
        queued = push_all-All m.tq ts v.queued back;
        blocks_queued = v.blocks_queued;
        chain = v.chain;
        working = Each-new_block;
        sent = v.sent;
      })
