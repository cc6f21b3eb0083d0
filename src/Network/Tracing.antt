-- ===== src/Network/Tracing.antt =====
-- That a step of a node (peer.cpp, server.cpp) brings in no transaction but what it receives.
use blockchain_voting.Memory.{CharPtr, c_string}
use blockchain_voting.Codec.{outlived}
use blockchain_voting.Base.{
  ℕ, suc, ◌≡◌, sym, ap, subst, inl, inr, true, false, Option, none, some, List, [], ◌∷◌, All, ok,
  >>=-eq-ok, ok-injective, Bytes, codes, All-append,
}
use mathlib.Core.List.{Memᴰ}
use blockchain_voting.Block.{Block, Slots, write_slot, new_block}
use blockchain_voting.Block.Contents.{EachSlot, Each, write_slot-EachSlot}
use blockchain_voting.SyncQueue.{push}
use blockchain_voting.Codec.{
  TransactionMsg, BlockMsg, encode_transaction, decode_transaction, decode_slots, decode_block,
}
use blockchain_voting.Server
use blockchain_voting.Server.{Shared, Status, answer_addr, find_metadata}
use blockchain_voting.Miner.{Miner, sent_block, sent_transaction}
use blockchain_voting.Miner.System.{
  Node, shared, with_shared, Step, continues, goes_on, finishes, receives_block,
  receives_transaction, gives_peers,
}
use blockchain_voting.Miner.Genuine.{Good, GoodSent, Genuine, Each-new_block, push-All}
use blockchain_voting.Miner.Genuine.Mending.{first_half-Genuine}
use blockchain_voting.Miner.Genuine.Mining.{second_half-Genuine}
use blockchain_voting.Network.{Network, Carried, sent_of}

pub All-Memᴰ {ℓ κ} :
    {A : Type ℓ} (P : A → Type κ) (x : A) (xs : List A) → All P xs → Memᴰ x xs → P x
All-Memᴰ P x [] a m = elim m [ ]
All-Memᴰ P x (y ∷ xs) a (Memᴰ.head e) = subst P (sym e) a.0
All-Memᴰ P x (y ∷ xs) a (Memᴰ.tail m) = All-Memᴰ P x xs a.1 m

module _ (Q : TransactionMsg → Type 0) where
  Good-decode : (msg : TransactionMsg) → Q msg → Good Q (decode_transaction msg)
  unfolding encode_transaction decode_transaction
  Good-decode msg q = q

  decode_slots-EachSlot :
      (i : ℕ) (ms : List TransactionMsg) (slots out : Slots)
      → decode_slots i ms slots ≡ ok out
      → All Q ms
      → EachSlot (Good Q) slots
      → EachSlot (Good Q) out
  unfolding decode_slots
  decode_slots-EachSlot i [] slots out e a g = subst (EachSlot (Good Q)) (ok-injective e) g
  decode_slots-EachSlot i (m ∷ ms) slots out e a g =
      let (next, f, h) = >>=-eq-ok (write_slot i (decode_transaction m) slots) _ e in
      decode_slots-EachSlot (suc i) ms next out h a.1
        (write_slot-EachSlot (Good Q) i (decode_transaction m) slots next f (Good-decode m a.0) g)

  decode_block-Each :
      (m : BlockMsg) (b : Block) → decode_block m ≡ ok b → All Q m.transaction_msg → Each (Good Q) b
  unfolding decode_block
  decode_block-Each m b e a =
      let (slots, f, g) =
        >>=-eq-ok (decode_slots 0 m.transaction_msg new_block.transaction_array) _ e in
      subst (Each (Good Q)) (ok-injective g) (
        decode_slots-EachSlot 0 m.transaction_msg new_block.transaction_array slots f a
          (Each-new_block Q))

  receives_block-Genuine :
      (m : Miner) (block_msg : BlockMsg) (r : Shared × Status)
      → Server.broadcast_block (shared m) block_msg ≡ ok r
      → All Q block_msg.transaction_msg
      → Genuine Q m
      → Genuine Q (with_shared m r.0)
  unfolding Server.broadcast_block push
  receives_block-Genuine m block_msg r e a v =
      let (b, f, g) = >>=-eq-ok (decode_block block_msg) _ e in
      let pushed : Genuine Q (record m { bq = push m.bq (outlived b) }) = record {
        queued = v.queued;
        blocks_queued =
            All-append (Each (Good Q)) m.bq (outlived b ∷ []) v.blocks_queued
              (decode_block-Each block_msg b f a, tt);
        chain = v.chain;
        working = v.working;
        sent = v.sent;
      } in
      subst (λ s. Genuine Q (with_shared m s)) (ap (λ p. p.0) (ok-injective g)) pushed

  receives_transaction-Genuine :
      (m : Miner) (msg : TransactionMsg)
      → Q msg
      → Genuine Q m
      → Genuine Q (with_shared m (Server.broadcast_transaction (shared m) msg).0)
  unfolding Server.broadcast_transaction
  receives_transaction-Genuine m msg q v = record {
    queued = push-All Q m.tq (decode_transaction msg) v.queued (Good-decode msg q);
    blocks_queued = v.blocks_queued;
    chain = v.chain;
    working = v.working;
    sent = v.sent;
  }

  gives_peers-Genuine :
      (m : Miner) (it : Option CharPtr) (r : Shared × Status × List Bytes)
      → answer_addr (shared m) (some m.client) it ≡ ok r
      → Genuine Q m
      → Genuine Q (with_shared m r.0)
  unfolding answer_addr
  gives_peers-Genuine m none r e v = cc
  gives_peers-Genuine m (some value) r e v =
      let (addr, _, f) = >>=-eq-ok (c_string value) _ e in
      subst (λ s. Genuine Q (with_shared m s)) (ap (λ p. p.0) (ok-injective f))
        (record {
          queued = v.queued;
          blocks_queued = v.blocks_queued;
          chain = v.chain;
          working = v.working;
          sent = v.sent;
        })

  -- Where all that was cast is good, and all nodes hold only good transactions, a step leaves only
  -- good ones.
  pub Step-Genuine :
      {sha1 : Bytes → Bytes} {s t : Node} (n : Network) (st : Step sha1 s t)
      → Carried n st
      → ((msg : TransactionMsg) → Memᴰ msg n.cast → Q msg)
      → ((i : ℕ) → All (GoodSent Q) (sent_of n i))
      → Genuine Q s.miner
      → Genuine Q t.miner
  unfolding Server.get_addr
  Step-Genuine {s} n (continues env m at e to) c cast sent v =
      rw to (first_half-Genuine Q env s.miner m true e v)
  Step-Genuine {s} n (goes_on env m at e to) c cast sent v =
      rw to (first_half-Genuine Q env s.miner m false e v)
  Step-Genuine {sha1} {s} n (finishes m at e to) c cast sent v =
      rw to (second_half-Genuine Q sha1 s.miner m e v)
  Step-Genuine {s} n (receives_block block_msg r e to) (i, addr, was_sent) cast sent v = rw to (
      receives_block-Genuine s.miner block_msg r e
        (All-Memᴰ (GoodSent Q) (sent_block (addr, block_msg)) (sent_of n i) (sent i) was_sent) v)
  Step-Genuine {s} n (receives_transaction msg to) (inl was_cast) cast sent v =
      rw to (receives_transaction-Genuine s.miner msg (cast msg was_cast) v)
  Step-Genuine {s} n (receives_transaction msg to) (inr (i, addr, was_sent)) cast sent v = rw to (
      receives_transaction-Genuine s.miner msg
        (All-Memᴰ (GoodSent Q) (sent_transaction (addr, msg)) (sent_of n i) (sent i) was_sent) v)
  Step-Genuine {s} n (gives_peers metadata r e to) c cast sent v =
      rw to (gives_peers-Genuine s.miner (find_metadata (codes "address") metadata) r e v)
