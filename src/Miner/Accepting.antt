-- ===== src/Miner/Accepting.antt =====
-- How `processing_thread` (peer.cpp) takes blocks from the queue.
use blockchain_voting.Base.{
  refl, ◌+◌, ◌≤◌, ◌≡◌, sym, ap, subst, ◌∙◌, inl, inr, Bool, true, false, List, ◌++◌, map, arith,
  ltb, leb, Bool-cases, Option-cases, All, Result, ok, assert, read, >>=-eq-ok, ok-injective, Bytes,
}
use blockchain_voting.Block.{
  Block, Transaction, new_block, num_transactions_per_block, read_slots, rounds,
}
use blockchain_voting.SyncQueue.Order.{pop_nonblocking-All}
use blockchain_voting.SyncQueue.{Queue, push_all, pop_nonblocking, back}
use blockchain_voting.Blockchain.{
  check_if_block_in_chain, Blockchain, BlockValidityCode, block_ok, prev_block_nonmatch,
  transaction_invalid, add_block, get_head_block, check_block_validity,
}
use blockchain_voting.Blockchain.Adding.{added, numbered, add_block-inv}
use blockchain_voting.Blockchain.Voters.{IsConsistent}
use blockchain_voting.Blockchain.Validity.{added-IsConsistent, check_block_validity-fresh}
use blockchain_voting.Blockchain.Repair.{Fetch, repair_blockchain}
use blockchain_voting.Blockchain.Repair.Rollback.{repair_blockchain-ok}
use blockchain_voting.Codec.{BlockMsg}
use blockchain_voting.Client.{broadcast_block, get_block}
use blockchain_voting.Miner.{
  begin_round, take_peers, Miner, Sent, sent_block, Environment, send_block, append_block, restart,
  repair, handle_block, take_block, first_half, last_number,
}
use blockchain_voting.Miner.Invariant.{Inv, HasSlots, new_block-IsWorking, Next}
use blockchain_voting.Miner.Rounds.{opening-Inv, opening-bc}
use blockchain_voting.Blockchain.Advance.{Advance, stays, grows, cut}
use blockchain_voting.Blockchain.Lookup.{find_position-Found}

pub send_block-inv :
    (m m' : Miner) (b : Block)
    → send_block m b ≡ ok m'
    → (messages : List (Bytes × BlockMsg)) × (broadcast_block m.client b ≡ ok messages)
      × (m' ≡ record m { sent = m.sent ++ map sent_block messages })
unfolding send_block
send_block-inv m m' b h =
    let (messages, e, f) = >>=-eq-ok (broadcast_block m.client b) _ h in (messages, e, ground arith)

-- What `append_block` has done if it returns: the number is within the limit, and but for the chain
-- and what was sent the miner is as before.
pub append_block-inv :
    (m m' : Miner) (b : Block)
    → append_block m b ≡ ok m'
    → (ts : List Transaction) × (messages : List (Bytes × BlockMsg)) × (read_slots
          num_transactions_per_block b.transaction_array
        ≡ ok ts)
      × (m.bc.chain_length + 1 ≤ last_number)
      × (broadcast_block m.client (numbered m.bc b) ≡ ok messages)
      × (m' ≡ record m { bc = added m.bc b ts; sent = m.sent ++ map sent_block messages })
unfolding append_block
append_block-inv m m' b h =
    let (added_pair, e, f) = >>=-eq-ok (add_block m.bc b) _ h in
    let (ts, written, chain, number) = add_block-inv m.bc added_pair.0 b added_pair.1 e in
    let (n, g, k) = >>=-eq-ok (read (added_pair.1).block_number) _ f in
    let (_, low, l) = >>=-eq-ok (assert (leb n last_number)) _ k in
    let (messages, sending, at) =
      send_block-inv (record m { bc = added_pair.0 }) m' added_pair.1 l in
    let numbered_n : n ≡ m.bc.chain_length + 1 = (let g' = rw number at g in ground arith) in
    (
      ts,
      messages,
      written,
      ground (arith, numbered_n),
      subst (λ x. broadcast_block m.client x ≡ ok messages) number sending,
      at ∙ ap (λ c. record m { bc = c; sent = m.sent ++ map sent_block messages }) chain,
    )

pub restart-inv :
    (m m' : Miner)
    → restart m ≡ ok m'
    → (ts : List Transaction) × (read_slots
          (rounds m.working_block.max_ind)
          m.working_block.transaction_array
        ≡ ok ts)
      × (m' ≡ record m { tq = push_all m.tq ts; quotafull = false; working_block = new_block })
unfolding restart
restart-inv m m' h =
    let (ts, e, f) =
      >>=-eq-ok (read_slots (rounds m.working_block.max_ind) m.working_block.transaction_array) _
        h in
    (ts, e, sym (ok-injective f))

-- A round that has taken a block over, or has cut the chain back, starts with a new working block.
restart-Inv :
    (m m1 m2 : Miner) (bc : Blockchain) (q : Queue Transaction) (s : List Sent)
    → Inv m
    → IsConsistent bc
    → bc.chain_length ≤ last_number
    → m1 ≡ record m { bc = bc; tq = q; sent = s }
    → restart m1 ≡ ok m2
    → Inv m2 × (m2.bc ≡ bc)
restart-Inv m m1 m2 bc q s v w low at h =
    let (ts, _, back) =
      restart-inv (record m { bc = bc; tq = q; sent = s }) m2
        (subst (λ x. restart x ≡ ok m2) at h) in
    (
      rw back (record {
        consistent = w;
        limited = low;
        network = v.network;
        working = new_block-IsWorking bc.voted;
        queued = v.queued;
      }),
      ap {A = Miner} (λ x. x.bc) back,
    )

accept-Next :
    (env : Environment) (m m' : Miner) (b : Block) (docontinue : Bool)
    → Inv m
    → HasSlots b
    → check_block_validity m.bc b ≡ ok block_ok
    → handle_block env block_ok m b ≡ ok (m', docontinue)
    → Next m m'
unfolding handle_block
accept-Next env m m' b docontinue v len good h =
    let (m1, e, f) = >>=-eq-ok (append_block m b) _ h in
    let (m2, g, k) = >>=-eq-ok (restart m1) _ f in
    let (ts, messages, written, low, _, at) = append_block-inv m m1 b e in
    let (us, written', fresh) = check_block_validity-fresh m.bc b good in
    let same : us ≡ ts = ok-injective (sym written' ∙ written) in
    let new = subst (All (λ t. m.bc.voted t.sender_public_key ≡ false)) same fresh in
    let chain = added-IsConsistent m.bc b ts v.consistent len written new in
    let (w, on) = restart-Inv m m1 m2 (added m.bc b ts) m.tq _ v chain low at g in
    subst (Next m) (ap (λ p. p.0) (ok-injective k)) (w, grows b ts len written new on)

repair-Next :
    (env : Environment) (m m' : Miner) (b : Block) (docontinue : Bool)
    → Inv m
    → repair env m b ≡ ok (m', docontinue)
    → Next m m'
unfolding repair
repair-Next env m m' b docontinue v h =
    let fetch : Fetch = get_block env.blocks m.client in
    let (r, e, f) = >>=-eq-ok (repair_blockchain fetch env.stack env.fuel m.bc m.tq b) _ h in
    let (i, at, found, (rest, kept, chain)) =
      repair_blockchain-ok fetch env.stack env.fuel m.bc r.0 m.tq r.1 b r.2 v.consistent e in
    let (m1, g, k) = >>=-eq-ok (send_block (record m { bc = r.0; tq = r.1 }) b) _ (rw found at f) in
    let (m2, l, end) = >>=-eq-ok (restart m1) _ k in
    let (messages, _, sent) = send_block-inv (record m { bc = r.0; tq = r.1 }) m1 b g in
    let (w, on) = restart-Inv m m1 m2 r.0 r.1 _ v chain (rw kept v.limited) sent l in
    let below =
      (find_position-Found b.finhash m.bc.blocks i (unfold check_if_block_in_chain in at)).0 in
    subst (Next m) (ap (λ p. p.0) (ok-injective end))
      (w, cut i below (ap (λ c. c.blocks) on ∙ rest))

module _ (env : Environment) (m m' : Miner) (b : Block) (docontinue : Bool) (v : Inv m) where
  unchanged : ◌≡◌ {A = Result (Miner × Bool)} (ok (m, true)) (ok (m', docontinue)) → Next m m'
  unchanged e = subst (Next m) (ap (λ p. p.0) (ok-injective e)) (v, stays refl)

  handle_block-Next :
      (code : BlockValidityCode)
      → HasSlots b
      → check_block_validity m.bc b ≡ ok code
      → handle_block env code m b ≡ ok (m', docontinue)
      → Next m m'
  unfolding handle_block
  handle_block-Next block_ok len good h = accept-Next env m m' b docontinue v len good h
  handle_block-Next prev_block_nonmatch len good h =
      let (head, e, f) = >>=-eq-ok (get_head_block m.bc) _ h in
      let (n, g, k) = >>=-eq-ok (read b.block_number) _ f in
      let (o, l, p) = >>=-eq-ok (read head.block_number) _ k in
      elim (Bool-cases (ltb o n)) [
        | inl higher ↦
            let (_, _, q) = >>=-eq-ok (assert (leb n last_number)) _ (rw higher at p) in
            repair-Next env m m' b docontinue v q
        | inr lower ↦ unchanged (rw lower at p)
      ]
  handle_block-Next transaction_invalid len good h = unchanged h

take_block-Next :
    (env : Environment) (m m' : Miner) (docontinue : Bool)
    → Inv m
    → take_block env m ≡ ok (m', docontinue)
    → Next m m'
unfolding take_block
take_block-Next env m m' docontinue v h = elim (Option-cases (pop_nonblocking m.bq)) [
  | inl e ↦ subst (Next m) (ap (λ p. p.0) (ok-injective (rw (e, take_block) at h))) (v, stays refl)
  | inr (popped, e) ↦
      let (len, rest) = pop_nonblocking-All HasSlots m.bq popped.1 popped.0 v.queued e in
      let (code, f, g) =
        >>=-eq-ok (check_block_validity m.bc popped.0) _ (rw (e, take_block) at h) in
      let w : Inv (record m { bq = popped.1 }) = record {
        consistent = v.consistent;
        limited = v.limited;
        network = v.network;
        working = v.working;
        queued = rest;
      } in
      handle_block-Next env (record m { bq = popped.1 }) m' popped.0 docontinue w code len f g
]

pub first_half-Next :
    (env : Environment) (m m' : Miner) (docontinue : Bool)
    → Inv m
    → first_half env m ≡ ok (m', docontinue)
    → Next m m'
unfolding first_half
first_half-Next env m m' docontinue v h =
    let (w, moves) =
      take_block-Next env (take_peers (begin_round env m)) m' docontinue (opening-Inv env m v) h in
    (w, subst (λ c. Advance c m'.bc) (opening-bc env m) moves)

-- A first half of a round that ends without an error keeps the invariant, on every branch:
-- bootstrapping, taking peers in, and taking, mending for or refusing a block from the queue.
pub first_half-Inv :
    (env : Environment) (m m' : Miner) (docontinue : Bool)
    → Inv m
    → first_half env m ≡ ok (m', docontinue)
    → Inv m'
first_half-Inv env m m' docontinue v h = (first_half-Next env m m' docontinue v h).0
