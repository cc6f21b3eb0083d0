-- ===== src/Miner/Samples.antt =====
-- A digest for tests that mine, and a node without peers that has mined eight votes.
use blockchain_voting.Base.{
  ℕ, ◌≡◌, refl, inl, inr, none, some, List, [], ◌∷◌, ◌==◌, if◌then◌else◌, Bool-cases, length,
  replicate, ok, Bytes, codes, bytes_eq,
}
use blockchain_voting.Finhash.{IsSha1}
use blockchain_voting.Memory.{buf}
use blockchain_voting.Block.{Block, new_block, read_slots}
use blockchain_voting.Block.Slots.{filled}
use blockchain_voting.Samples.{votes, hash, transaction}
use blockchain_voting.Client
use blockchain_voting.Codec.{encode_transaction}
use blockchain_voting.Blockchain
use blockchain_voting.Blockchain.{Blockchain, starting_block}
use blockchain_voting.Blockchain.Adding.{added}
use blockchain_voting.Miner.{Miner, Environment}
use blockchain_voting.Miner.System.{start}
use blockchain_voting.Miner.Polling.{Arrival, IsGathering}
use blockchain_voting.Miner.Loop.{round, run}
use blockchain_voting.Miner.Election.{election}
use blockchain_voting.Miner.{
  first_half, begin_round, take_peers, peer_loop, take_block, second_half, on_pop,
  handle_transaction, take_in, mine, try_magic, finish_block, append_block, send_block,
}
use blockchain_voting.SyncQueue.{pop_nonblocking, take_out, back, pop, push}
use blockchain_voting.Server
use blockchain_voting.Codec.{decode_transaction}
use blockchain_voting.Finhash.{calculate_finhash, le_bytes}
use blockchain_voting.Merkle.{calculate_merkle_root, slot_zero, leaf_hashes, pair_hashes, root_loop}
use blockchain_voting.Memory.{first_char, read_bytes, read_prefix, c_string, until_nul}
use blockchain_voting.Hash.{meets_target, leading_zeros, zeros_from}
use blockchain_voting.Block.{write_slot, rounds}
use blockchain_voting.Blockchain.{get_head_block, add_block, add_transactions_to_set, insert_keys}
use blockchain_voting.Client.{
  broadcast_transaction, bootstrap_peers, add_new_peers, ask_peers, add_new_peer, has_peer,
}

-- All zeros for 28 bytes, as a root and a `magic` have, and all ones otherwise.
abbrev pub quick_sha1 : Bytes → Bytes
quick_sha1 m = if length m == 28 then replicate 20 0 else replicate 20 1

pub quick_sha1-IsSha1 : IsSha1 quick_sha1
quick_sha1-IsSha1 = record {
  length_digest = λ m. elim (Bool-cases (length m == 28)) [ inl e ↦ rw e refl | inr e ↦ rw e refl ];
}

abbrev pub nobody : Client.Addresses
nobody p = []

abbrev pub own : Bytes
own = codes "1.1.1.1"

abbrev pub waiting : Environment
waiting = record { get_addr = nobody; blocks = λ p h. none; stack = λ n. none; fuel = 1 }

-- The only peer it is given is itself.
abbrev pub idle : Miner
idle = start nobody nobody (0, 0) own own

-- The vote of the voter `k`, and those of 18 down to 11.
abbrev pub arrival : ℕ → Arrival
arrival k = (waiting, encode_transaction (transaction k))

abbrev pub first_arrivals : List Arrival
first_arrivals =
    arrival 18
    ∷ arrival 17
    ∷ arrival 16
    ∷ arrival 15
    ∷ arrival 14
    ∷ arrival 13
    ∷ arrival 12
    ∷ arrival 11
    ∷ []

-- The block that they are mined into, and the node with it.
abbrev pub first_block : Block
first_block = record new_block {
  prev_block_sha1 = (starting_block (0, 0)).finhash;
  magic = 1;
  merkle_root = buf (replicate 20 1);
  transaction_array = filled (votes 8 18) 0;
  finhash = buf (hash 0);
}

abbrev pub grown_chain : Blockchain
grown_chain = added (Blockchain.init (0, 0)) first_block (votes 8 18)

abbrev pub grown : Miner
grown = record idle { bc = grown_chain; loop_counter = 8 }

pub grows : election quick_sha1 first_arrivals [] idle ≡ ok (some grown)
unfolding round run first_half begin_round take_peers peer_loop take_block pop_nonblocking take_out
    back pop Server.broadcast_transaction push decode_transaction encode_transaction second_half
    on_pop handle_transaction take_in mine try_magic finish_block append_block send_block
    calculate_finhash calculate_merkle_root slot_zero leaf_hashes pair_hashes root_loop le_bytes
    first_char read_bytes read_prefix meets_target leading_zeros zeros_from read_slots write_slot
    rounds get_head_block add_block add_transactions_to_set insert_keys Client.broadcast_block
    Client.send_block broadcast_transaction bytes_eq bootstrap_peers add_new_peers ask_peers
    add_new_peer has_peer c_string until_nul
grows = refl

pub grown-IsGathering : IsGathering grown_chain (97 ∷ []) 0 grown []
unfolding c_string
grown-IsGathering = record {
  room = refl;
  no_transactions = refl;
  no_blocks = refl;
  no_peers = refl;
  chain = refl;
  slots = refl;
  count = refl;
  verifier = refl;
  begun = refl;
}
