-- ===== src/Miner/Delivery.antt =====
-- A mined block on its way from one node to another: `processing_thread` (peer.cpp) of the one,
-- `BroadcastBlock` (client.cpp, server.cpp) between them, and `processing_thread` of the other.
use blockchain_voting.Base.{
  ℕ, suc, ◌+◌, ◌*◌, ◌≤◌, ◌<◌, ◌≡◌, refl, ap, ◌∙◌, ◌≢◌, true, some, List, [], ◌∷◌, map, dangling,
  length, take, ok, err, Bytes,
}
use blockchain_voting.Memory.{first_char, buf, same_hash, public_key_size}
use blockchain_voting.Block.{Block, num_transactions_per_block}
use blockchain_voting.SyncQueue.{push, pop_nonblocking, take_out, back}
use blockchain_voting.Blockchain.{Blockchain, get_head_block, check_block_validity}
use blockchain_voting.Blockchain.Adding.{numbered}
use blockchain_voting.Codec.{BlockMsg, decode_block, outlived}
use blockchain_voting.Codec.Mined.{encode_block_empty}
use blockchain_voting.Codec.RoundTrip.{decode_block-ok}
use blockchain_voting.Server
use blockchain_voting.Server.{Shared, Status, status_ok}
use blockchain_voting.Miner.{Miner, Environment, take_block, begin_round, take_peers, first_half}
use blockchain_voting.Finhash.{IsSha1}
use blockchain_voting.Finhash.Laws.{root_of}
use blockchain_voting.Miner.{num_magic_to_try, last_number}
use blockchain_voting.Miner.Mining.{succeeds, attempt}
use blockchain_voting.Miner.Polling.{Arrival, vote_in, AllNew, IsGathering}
use blockchain_voting.Miner.Election.{election, HasElected, election-HasElected}
use blockchain_voting.Miner.Rounds.{opening-bc, opening-bq}
use blockchain_voting.Miner.System.{shared}

-- The message goes wrong at a node: its handler takes the block, and the next round of the
-- processing thread reads what has been freed.
abbrev pub GoesWrong : Miner → BlockMsg → Type 0
GoesWrong n msg =
    (b : Block) × (Server.broadcast_block (shared n) msg
      ≡ ok (record (shared n) { bq = b ∷ [] }, status_ok))
    × ((env : Environment) → first_half env (record n { bq = b ∷ [] }) ≡ err dangling)

check_block_validity_freed :
    (c : Blockchain) (raw head : Block)
    → get_head_block c ≡ ok head
    → check_block_validity c (outlived raw) ≡ err dangling
unfolding check_block_validity same_hash
check_block_validity_freed c raw head at = rw at refl

take_block_dangling :
    (env : Environment) (m : Miner) (b : Block)
    → m.bq ≡ b ∷ []
    → check_block_validity m.bc b ≡ err dangling
    → take_block env m ≡ err dangling
unfolding take_block pop_nonblocking take_out back
take_block_dangling env m b one bad =
    let popped : pop_nonblocking m.bq ≡ some (b, []) = ap pop_nonblocking one in
    rw (popped, take_block, bad)

first_half_dangling :
    (env : Environment) (n : Miner) (b : Block)
    → n.bq ≡ b ∷ []
    → check_block_validity n.bc b ≡ err dangling
    → first_half env n ≡ err dangling
unfolding first_half
first_half_dangling env n b one bad =
    take_block_dangling env (take_peers (begin_round env n)) b (opening-bq env n ∙ one)
      (ap (λ c. check_block_validity c b) (opening-bc env n) ∙ bad)

-- Whatever block gets to a node with a head block and no block in its queue.
broadcast_block-GoesWrong :
    (n : Miner) (theirs raw : Block) (msg : BlockMsg)
    → get_head_block n.bc ≡ ok theirs
    → n.bq ≡ []
    → decode_block msg ≡ ok raw
    → GoesWrong n msg
unfolding push Server.broadcast_block
broadcast_block-GoesWrong n theirs raw msg at none_wait got = (
  outlived raw,
  rw (got, none_wait),
  λ env.
      first_half_dangling env (record n { bq = outlived raw ∷ [] }) (outlived raw) refl
        (check_block_validity_freed n.bc raw theirs at),
)

-- No node takes over the block of an election. Eight votes of voters who have not voted arrive one
-- by one at a miner with an empty working block and nothing waiting for it; its chain takes another
-- block, the head's hash has 20 bytes or more, the first vote's key 20 characters or more, and its
-- merkle root begins with no zero byte; and among the attempts of the last vote's round and of
-- `length envs` more, 1024 in each, there is one that succeeds. Then after at most `length envs`
-- more rounds a block of these votes is on the chain, and its message is sent to each peer. But any
-- node with a head block whose queue of blocks is empty takes that message into its queue, and
-- whatever the world does then, the next round of its processing thread reads the block's previous
-- hash from memory that has been freed.
pub election-GoesWrong :
    (sha1 : Bytes → Bytes) (law : IsSha1 sha1) (c : Blockchain) (key : Bytes) (magic : ℕ)
    (head : Block) (p : Bytes) (at_head : get_head_block c ≡ ok head)
    (head_hash : head.finhash ≡ buf p) (long_hash : public_key_size ≤ length p)
    (short : c.chain_length < last_number) (first : Arrival)
    (long : public_key_size ≤ length (vote_in first).sender_public_key) (b : ℕ)
    (starts : first_char (buf (root_of sha1 (vote_in first))) ≡ ok b) (nonzero : b ≢ 0)
    (others : List Arrival) (envs : List Environment) (m : Miner) (k : ℕ) (other : Miner)
    (theirs : Block)
    → IsGathering c key magic m []
    → length others + 1 ≡ num_transactions_per_block
    → AllNew c [] (first ∷ others)
    → k < suc (length envs) * num_magic_to_try
    → succeeds sha1 (vote_in first) (attempt magic k) ≡ true
    → get_head_block other.bc ≡ ok theirs
    → other.bq ≡ []
    → (n : ℕ) × (n ≤ length envs)
      × (m' : Miner) × (election sha1 (first ∷ others) (take n envs) m ≡ ok (some m'))
      × (e : HasElected c head (map vote_in (first ∷ others)) m') × GoesWrong other e.msg
election-GoesWrong sha1 law c key magic head p at_head head_hash long_hash short first long b starts
      nonzero others envs m k other theirs g all new lt hit at none_wait =
    let (n, few, m', ran, e) =
      election-HasElected sha1 law c key magic head p at_head head_hash long_hash short first long b
        starts nonzero others envs m k g all new lt hit in
    let (empty, _) = encode_block_empty (numbered c e.block) e.msg e.zero_ind e.encoded in
    (
      n,
      few,
      m',
      ran,
      e,
      broadcast_block-GoesWrong other theirs _ e.msg at none_wait
          (decode_block-ok e.msg 8 (rw empty refl)),
    )
