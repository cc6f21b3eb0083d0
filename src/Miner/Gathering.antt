-- ===== src/Miner/Gathering.antt =====
-- How `processing_thread` (peer.cpp) gathers transactions while its working block has room.
use blockchain_voting.Base.{
  ℕ, suc, ◌+◌, ◌-◌, ◌<◌, ◌≡◌, refl, ap, ◌∙◌, inl, inr, false, some, List, [], ◌∷◌, ◌++◌, map, arith,
  ◌==◌, if◌then◌else◌, Bool-cases, length, ok, ◌>>=◌, Bytes,
}
use blockchain_voting.Block.{Transaction, num_transactions_per_block}
use blockchain_voting.Block.Slots.{filled, write_slot-filled}
use blockchain_voting.SyncQueue.{Queue, pop}
use blockchain_voting.Client.{broadcast_transaction}
use blockchain_voting.Miner.{
  Miner, sent_transaction, mine, has_key, take_in, handle_transaction, on_pop, second_half,
}
use blockchain_voting.Miner.Invariant.{Inv}
use blockchain_voting.Miner.Holding.{read-Holds}

-- The miner once the transaction stands behind `ts` in its working block.
abbrev pub taken_in : Miner → Transaction → List Transaction → Miner
taken_in m t ts = record m {
  working_block = record m.working_block {
    transaction_array = filled (ts ++ t ∷ []) (num_transactions_per_block - (length ts + 1));
    max_ind = length ts + 1;
  };
  sent = m.sent ++ map sent_transaction (broadcast_transaction m.client t);
}

take_in-ok :
    (m : Miner) (t : Transaction) (ts : List Transaction) (free : ℕ)
    → m.working_block.transaction_array ≡ filled ts free
    → length ts + free ≡ num_transactions_per_block
    → m.working_block.max_ind ≡ length ts
    → m.quotafull ≡ false
    → length ts + 1 < num_transactions_per_block
    → take_in m t ≡ ok (taken_in m t ts)
unfolding take_in
take_in-ok m t ts free slots all count room short =
    let left : free ≡ suc (num_transactions_per_block - (length ts + 1)) = omega arith in
    let more : (length ts + 1 == num_transactions_per_block) ≡ false = (ground arith) in
    rw (
      slots,
      count,
      left,
      write_slot-filled ts (num_transactions_per_block - (length ts + 1)) t,
      more,
      room,
    )

-- What becomes of a miner that takes `t` from its queue, with `ts` in its working block.
abbrev pub gathered : Miner → Transaction → List Transaction → Miner
gathered m t ts =
    if m.bc.voted t.sender_public_key then m else if has_key t ts then m else taken_in m t ts

module _ (sha1 : Bytes → Bytes) (m : Miner) (v : Inv m) (room : m.quotafull ≡ false)
    (short : length v.working.ts + 1 < num_transactions_per_block) where
  handle_transaction-gathers :
      (t : Transaction) → handle_transaction sha1 m t ≡ ok (gathered m t v.working.ts)
  unfolding handle_transaction mine
  handle_transaction-gathers t =
      let h = v.working.holds in
      let took = take_in-ok m t v.working.ts v.working.free h.slots h.room h.count room short in
      let written = read-Holds h in
      elim (Bool-cases (m.bc.voted t.sender_public_key)) [
        | inl voted ↦ rw voted refl
        | inr new ↦ elim (Bool-cases (has_key t v.working.ts)) [
          | inl present ↦ rw (new, written, present, room) refl
          | inr absent ↦ rw (new, written, absent, took, room) refl
        ]
      ]

abbrev without : (m : Miner) (q : Queue Transaction) → Inv m → Inv (record m { tq = q })
without m q v = record {
  consistent = v.consistent;
  limited = v.limited;
  network = v.network;
  working = v.working;
  queued = v.queued;
}

-- Under the invariant, with room for more than one transaction in the working block, the second
-- half of a round takes a transaction from a queue that is not empty and always ends well: a voter
-- who has voted in the chain or who stands in the working block is thrown out, and any other
-- transaction goes into the next free slot and to the peers. Nothing else changes.
pub second_half-gathers :
    (sha1 : Bytes → Bytes) (m : Miner) (t : Transaction) (q : Queue Transaction) (v : Inv m)
    → m.quotafull ≡ false
    → length v.working.ts + 1 < num_transactions_per_block
    → pop m.tq ≡ some (t, q)
    → second_half sha1 m ≡ ok (some (gathered (record m { tq = q }) t v.working.ts))
unfolding second_half on_pop
second_half-gathers sha1 m t q v room short popped =
    ap (λ b. if b then (do m' ← mine sha1 m; ok (some m')) else on_pop sha1 m (pop m.tq)) room
    ∙ ap (on_pop sha1 m) popped
    ∙ ap (λ r. do m' ← r; ok (some m'))
        (handle_transaction-gathers sha1 (record m { tq = q }) (without m q v) room short t)
