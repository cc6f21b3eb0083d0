-- ===== src/Miner/Liveness/Examples.antt =====
-- A second election at a node that has mined a block, and another node.
use blockchain_voting.Base.{ℕ, ◌≤◌, ◌≡◌, refl, some, List, [], ◌∷◌, map, arith, take, ok, bytes_eq}
use blockchain_voting.Memory.{first_char}
use blockchain_voting.Hash.{meets_target}
use blockchain_voting.Finhash.{le_bytes}
use blockchain_voting.Block.{Block}
use blockchain_voting.Samples.{hash}
use blockchain_voting.Blockchain
use blockchain_voting.Blockchain.{starting_block, get_head_block, insert_keys}
use blockchain_voting.Blockchain.Adding.{numbered}
use blockchain_voting.Codec.{decode_transaction, encode_transaction}
use blockchain_voting.Miner.{Miner}
use blockchain_voting.Miner.Polling.{AllNew, Arrival, vote_in}
use blockchain_voting.Miner.Election.{election, HasElected, election-HasElected}
use blockchain_voting.Miner.Samples.{
  quick_sha1, quick_sha1-IsSha1, waiting, idle, arrival, first_block, grown_chain, grown,
  grown-IsGathering,
}
use blockchain_voting.Miner.Delivery.{GoesWrong, election-GoesWrong}

-- The votes of the voters 1 to 8.
abbrev others : List Arrival
others = arrival 2 ∷ arrival 3 ∷ arrival 4 ∷ arrival 5 ∷ arrival 6 ∷ arrival 7 ∷ arrival 8 ∷ []

all_new : AllNew grown_chain [] (arrival 1 ∷ others)
unfolding bytes_eq decode_transaction encode_transaction insert_keys
all_new = (
  refl,
  refl,
  (
    refl,
    refl,
    (refl, refl, (refl, refl, (refl, refl, (refl, refl, (refl, refl, (refl, refl, tt)))))),
  ),
)

-- The block that the node mines on.
abbrev head : Block
head = numbered (Blockchain.init (0, 0)) first_block

election-HasElected_example :
    (n : ℕ) × (n ≤ 1)
    × (m' : Miner) × (election quick_sha1 (arrival 1 ∷ others) (take n (waiting ∷ [])) grown
        ≡ ok (some m'))
    × HasElected grown_chain head (map vote_in (arrival 1 ∷ others)) m'
unfolding first_char meets_target le_bytes get_head_block bytes_eq decode_transaction
    encode_transaction
election-HasElected_example =
    election-HasElected quick_sha1 quick_sha1-IsSha1 grown_chain (97 ∷ []) 0 head (hash 0) refl refl
      (omega arith) (omega arith) (arrival 1) (omega arith) 1 refl (λ e. cc) others (waiting ∷ [])
      grown 0 grown-IsGathering refl all_new (omega arith) refl

-- The other node has only the first block.
election-GoesWrong_example :
    (n : ℕ) × (n ≤ 1)
    × (m' : Miner) × (election quick_sha1 (arrival 1 ∷ others) (take n (waiting ∷ [])) grown
        ≡ ok (some m'))
    × (e : HasElected grown_chain head (map vote_in (arrival 1 ∷ others)) m') × GoesWrong idle e.msg
unfolding first_char meets_target le_bytes get_head_block bytes_eq decode_transaction
    encode_transaction
election-GoesWrong_example =
    election-GoesWrong quick_sha1 quick_sha1-IsSha1 grown_chain (97 ∷ []) 0 head (hash 0) refl refl
      (omega arith) (omega arith) (arrival 1) (omega arith) 1 refl (λ e. cc) others (waiting ∷ [])
      grown 0 idle (starting_block (0, 0)) grown-IsGathering refl all_new (omega arith) refl refl
      refl
