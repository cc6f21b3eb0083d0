-- ===== src/Miner/Atomicity/Examples.antt =====
-- A node that takes a vote off its queue, and gets another one before it works on the first.
use blockchain_voting.Base.{refl, ◌↔◌, [], ◌∷◌, Result, ok, err}
use blockchain_voting.Block.{read_slots, write_slot}
use blockchain_voting.Samples.{transaction, toy_sha1}
use blockchain_voting.SyncQueue.{push, pop}
use blockchain_voting.Codec.{encode_transaction, decode_transaction}
use blockchain_voting.Server
use blockchain_voting.Miner.{Miner, take_in}
use blockchain_voting.Miner.System.{at_top, at_pop, node, Reach}
use blockchain_voting.Miner.Samples.{idle}
use blockchain_voting.Miner.Atomicity.{
  between, thread, consider, pops, considers, receives_transaction, SmallReach, stays, then_step,
}
use blockchain_voting.Miner.Atomicity.Equivalence.{SmallReach-iff}

abbrev one_vote : Miner
one_vote = record idle { tq = transaction 3 ∷ [] }

abbrev miner_or : Miner → Result Miner → Miner
miner_or d (ok m) = m
miner_or d (err e) = d

-- With the vote of 3 in the working block, and that of 4 in the queue.
abbrev worked : Miner
worked = miner_or idle (take_in (record idle { tq = transaction 4 ∷ [] }) (transaction 3))

arrives_midway :
    SmallReach toy_sha1 (thread (between at_pop) one_vote) (thread (between at_top) worked)
unfolding pop push Server.broadcast_transaction decode_transaction encode_transaction consider
    read_slots take_in write_slot
arrives_midway =
    then_step
      (then_step (then_step stays (pops (transaction 3) [] refl refl refl refl))
        (receives_transaction (encode_transaction (transaction 4)) refl))
      (considers (transaction 3) [] worked refl refl refl refl refl)

SmallReach-iff_example :
    SmallReach toy_sha1 (thread (between at_pop) one_vote) (thread (between at_top) worked)
    ↔ Reach toy_sha1 (node at_pop one_vote) (node at_top worked)
SmallReach-iff_example = SmallReach-iff toy_sha1 at_pop at_top one_vote worked
