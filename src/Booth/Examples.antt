-- ===== src/Booth/Examples.antt =====
-- A vote cast at a booth.
use blockchain_voting.Base.{◌≡◌, refl, some, [], ◌∷◌, arith, replicate, ok, Bytes, codes}
use blockchain_voting.SyncQueue.{Queue}
use blockchain_voting.Block.{Transaction}
use blockchain_voting.Samples.{transaction, toy_sha1}
use blockchain_voting.Client.{Addresses}
use blockchain_voting.Server
use blockchain_voting.Booth.{vote_of}
use blockchain_voting.Booth.Casting.{vote_msg, second_half-broadcast_transaction}
use blockchain_voting.Miner.{Miner, second_half}
use blockchain_voting.Miner.Invariant.{Inv}
use blockchain_voting.Miner.System.{start, shared, with_shared, start-Inv}
use blockchain_voting.Miner.Gathering.{gathered}

abbrev nobody : Addresses
nobody p = []

-- Every file holds the same key.
abbrev key_file : Bytes → Bytes
key_file path = replicate 20 3

abbrev node : Bytes
node = codes "2.2.2.2"

-- A node at which another vote waits.
abbrev waiting : Miner
waiting = record (start nobody nobody (0, 0) node node) { tq = transaction 5 ∷ [] }

start_holds : Inv (start nobody nobody (0, 0) node node)
start_holds = start-Inv nobody nobody (0, 0) node node

abbrev waiting-Inv : Inv waiting
waiting-Inv = record {
  consistent = start_holds.consistent;
  limited = start_holds.limited;
  network = start_holds.network;
  working = record {
    ts = [];
    free = 8;
    holds = record {
      slots = refl;
      room = refl;
      count = refl;
      full = refl;
      fresh = tt;
      distinct = tt;
    };
  };
  queued = tt;
}

second_half-broadcast_transaction_example :
    (rest : Queue Transaction) × (second_half toy_sha1 (
        with_shared waiting
          (Server.broadcast_transaction
            (shared waiting)
            (vote_msg (replicate 20 3) (codes "A") 7)).0)
      ≡ ok (
          some
            (gathered (record waiting { tq = rest }) (vote_of (replicate 20 3) (codes "A") 7) [])))
second_half-broadcast_transaction_example =
    second_half-broadcast_transaction toy_sha1 waiting (replicate 20 3) (codes "A") 7 waiting-Inv
      refl (omega arith)
