-- ===== src/Miner/Genuine/Mending.antt =====
-- Where the transactions go in the first half of a round of `processing_thread` (peer.cpp), with
-- `repair_blockchain` (processor.cpp).
use blockchain_voting.Base.{
  ℕ, zero, suc, ◌≡◌, sym, ap, ap₂, subst, ◌∙◌, inl, inr, Bool, Option, List, [], ◌∷◌, map, ltb, leb,
  Bool-cases, Option-cases, All, ok, assert, read, >>=-eq-ok, ok-injective, All-append,
}
use blockchain_voting.Block.{
  Block, Transaction, read_slots, rounds, num_transactions_per_block, keys,
}
use blockchain_voting.Block.Contents.{Each, read_slots-EachSlot}
use blockchain_voting.SyncQueue.{Queue, pop_nonblocking, push_all}
use blockchain_voting.SyncQueue.Order.{pop_nonblocking-All}
use blockchain_voting.Blockchain.{
  Blockchain, Voted, erase_keys, BlockValidityCode, block_ok, prev_block_nonmatch,
  transaction_invalid, remove_transactions_from_set, add_transactions_to_queue,
  check_block_validity, get_head_block,
}
use blockchain_voting.Blockchain.Repair.{
  pop_front, Fetch, rollback, repair_blockchain, find_ancestor, add_each_to_set,
}
use blockchain_voting.Blockchain.Repair.Walk.{find_ancestor-ok}
use blockchain_voting.Codec.{TransactionMsg}
use blockchain_voting.Client.{get_block}
use blockchain_voting.Miner.{
  Miner, Environment, sent_block, send_block, append_block, restart, repair, handle_block,
  take_block, first_half, begin_round, take_peers, last_number,
}
use blockchain_voting.Miner.Accepting.{send_block-inv}
use blockchain_voting.Miner.Rounds.{opening-same}
use blockchain_voting.Miner.Genuine.{
  Good, GoodSent, Genuine, push_all-All, broadcast_block-All, append_block-Genuine, restart-Genuine,
}

module _ (Q : TransactionMsg → Type 0) where
  abbrev Kept : Blockchain × Queue Transaction → Type 0
  Kept (c, q) = All (Each (Good Q)) c.blocks × All (Good Q) q

  rollback-Kept :
      (i n : ℕ) (bs : List Block) (voted : Voted) (q : Queue Transaction)
      (r : Blockchain × Queue Transaction)
      → rollback i (record { chain_length = n; blocks = bs; voted = voted }) q ≡ ok r
      → All (Each (Good Q)) bs
      → All (Good Q) q
      → Kept r
  unfolding rollback remove_transactions_from_set add_transactions_to_queue
  rollback-Kept zero n bs voted q r h a b = subst Kept (ok-injective h) (a, b)
  rollback-Kept (suc i) n [] voted q r h a b = cc
  rollback-Kept (suc i) n (x ∷ bs) voted q r h a b =
      let c : Blockchain = record { chain_length = n; blocks = x ∷ bs; voted = voted } in
      let (c', e, f) = >>=-eq-ok (remove_transactions_from_set c x) _ h in
      let (q', g, k) = >>=-eq-ok (add_transactions_to_queue q x) _ f in
      let (ts, written, at) =
        >>=-eq-ok (read_slots num_transactions_per_block x.transaction_array) _ e in
      let (back, kept, to) = >>=-eq-ok (read_slots (rounds x.max_ind) x.transaction_array) _ g in
      let good =
        read_slots-EachSlot (Good Q) (rounds x.max_ind) x.transaction_array back kept a.0 in
      rollback-Kept i n bs (erase_keys (keys ts) voted) (push_all q back) r
        (ap₂ (λ p s. rollback i (record p { blocks = pop_front p.blocks }) s) (ok-injective at)
            (ok-injective to)
          ∙ k)
        a.1 (push_all-All Q q back b good)

  repair_blockchain-Kept :
      (fetch : Fetch) (stack : ℕ → Option Block) (fuel : ℕ) (c : Blockchain) (q : Queue Transaction)
      (b : Block) (r : Blockchain × Queue Transaction × Bool)
      → repair_blockchain fetch stack fuel c q b ≡ ok r
      → All (Each (Good Q)) c.blocks
      → All (Good Q) q
      → Kept (r.0, r.1)
  unfolding repair_blockchain add_each_to_set
  repair_blockchain-Kept fetch stack fuel c q b r h a g =
      let (found, e, f) = >>=-eq-ok (find_ancestor fetch stack fuel c b []) _ h in
      let (i, at, same) = find_ancestor-ok fetch stack c b fuel [] found e in
      let (cq, run, k) = >>=-eq-ok (rollback i c q) _ (rw same at f) in
      subst Kept (ap (λ x. (x.0, x.1)) (ok-injective k))
        (rollback-Kept i c.chain_length c.blocks c.voted q cq run a g)

  module _ (env : Environment) (m m' : Miner) (b : Block) (docontinue : Bool) (v : Genuine Q m)
      (good : Each (Good Q) b) where
    repair-Genuine : repair env m b ≡ ok (m', docontinue) → Genuine Q m'
    unfolding repair
    repair-Genuine h =
        let fetch : Fetch = get_block env.blocks m.client in
        let (r, e, f) = >>=-eq-ok (repair_blockchain fetch env.stack env.fuel m.bc m.tq b) _ h in
        let (kept, back) =
          repair_blockchain-Kept fetch env.stack env.fuel m.bc m.tq b r e v.chain v.queued in
        let mended : Genuine Q (record m { bc = r.0; tq = r.1 }) = record {
          queued = back;
          blocks_queued = v.blocks_queued;
          chain = kept;
          working = v.working;
          sent = v.sent;
        } in
        elim (Bool-cases r.2) [
          | inl yes_repaired ↦
              let (m1, g, k) =
                >>=-eq-ok (send_block (record m { bc = r.0; tq = r.1 }) b) _
                  (rw yes_repaired at f) in
              let (m2, l, end) = >>=-eq-ok (restart m1) _ k in
              let (messages, sending, at) =
                send_block-inv (record m { bc = r.0; tq = r.1 }) m1 b g in
              let v1 : Genuine Q m1 = subst (Genuine Q) (sym at) (record {
                queued = back;
                blocks_queued = v.blocks_queued;
                chain = kept;
                working = v.working;
                sent =
                    All-append (GoodSent Q) m.sent (map sent_block messages) v.sent
                      (broadcast_block-All Q m.client b messages sending good);
              }) in
              subst (Genuine Q) (ap (λ p. p.0) (ok-injective end)) (restart-Genuine Q m1 m2 l v1)
          | inr not_repaired ↦
              subst (Genuine Q) (ap (λ p. p.0) (ok-injective (rw not_repaired at f))) mended
        ]

    handle_block-Genuine :
        (code : BlockValidityCode) → handle_block env code m b ≡ ok (m', docontinue) → Genuine Q m'
    unfolding handle_block
    handle_block-Genuine block_ok h =
        let (m1, e, f) = >>=-eq-ok (append_block m b) _ h in
        let (m2, g, k) = >>=-eq-ok (restart m1) _ f in
        subst (Genuine Q) (ap (λ p. p.0) (ok-injective k))
          (restart-Genuine Q m1 m2 g (append_block-Genuine Q m m1 b e good v))
    handle_block-Genuine prev_block_nonmatch h =
        let (head, e, f) = >>=-eq-ok (get_head_block m.bc) _ h in
        let (n, g, k) = >>=-eq-ok (read b.block_number) _ f in
        let (o, l, p) = >>=-eq-ok (read head.block_number) _ k in
        elim (Bool-cases (ltb o n)) [
          | inl higher ↦
              let (_, _, q) = >>=-eq-ok (assert (leb n last_number)) _ (rw higher at p) in
              repair-Genuine q
          | inr lower ↦ subst (Genuine Q) (ap (λ p. p.0) (ok-injective (rw lower at p))) v
        ]
    handle_block-Genuine transaction_invalid h =
        subst (Genuine Q) (ap (λ p. p.0) (ok-injective h)) v

  take_block-Genuine :
      (env : Environment) (m m' : Miner) (docontinue : Bool)
      → take_block env m ≡ ok (m', docontinue)
      → Genuine Q m
      → Genuine Q m'
  unfolding take_block
  take_block-Genuine env m m' docontinue h v = elim (Option-cases (pop_nonblocking m.bq)) [
    | inl e ↦ subst (Genuine Q) (ap (λ p. p.0) (ok-injective (rw (e, take_block) at h))) v
    | inr (popped, e) ↦
        let (good, rest) =
          pop_nonblocking-All (Each (Good Q)) m.bq popped.1 popped.0 v.blocks_queued e in
        let (code, f, g) =
          >>=-eq-ok (check_block_validity m.bc popped.0) _ (rw (e, take_block) at h) in
        let w : Genuine Q (record m { bq = popped.1 }) = record {
          queued = v.queued;
          blocks_queued = rest;
          chain = v.chain;
          working = v.working;
          sent = v.sent;
        } in
        handle_block-Genuine env (record m { bq = popped.1 }) m' popped.0 docontinue w good code g
  ]

  pub first_half-Genuine :
      (env : Environment) (m m' : Miner) (docontinue : Bool)
      → first_half env m ≡ ok (m', docontinue)
      → Genuine Q m
      → Genuine Q m'
  unfolding first_half
  first_half-Genuine env m m' docontinue h v =
      let (c, q, l, same) = opening-same env m in
      let opened : Genuine Q (record m { client = c; peerq = q; loop_counter = l }) = record {
        queued = v.queued;
        blocks_queued = v.blocks_queued;
        chain = v.chain;
        working = v.working;
        sent = v.sent;
      } in
      take_block-Genuine env (take_peers (begin_round env m)) m' docontinue h
        (subst (Genuine Q) (sym same) opened)
