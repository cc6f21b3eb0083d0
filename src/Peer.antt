-- ===== src/Peer.antt =====
-- `main` of peer.cpp: what it prints, and what it hands to its two threads.
use blockchain_voting.Blockchain.{TwoBytes}
use blockchain_voting.Base.{
  ℕ, false, Option, none, some, List, [], ◌∷◌, replicate, Result, ok, ◌>>=◌, Bytes, codes,
}
use blockchain_voting.Memory.{buf, read_bytes}
use blockchain_voting.Hash.{leading_zeros}
use blockchain_voting.Block.{Block, Transaction, new_block, num_transactions_per_block}
use blockchain_voting.SyncQueue
use blockchain_voting.Merkle.{calculate_merkle_root}
use blockchain_voting.Finhash.{sha_digest_length}
use blockchain_voting.Blockchain
use blockchain_voting.Client
use blockchain_voting.Client.{Addresses, bootstrap_peers}
use blockchain_voting.Server.{Shared}
use blockchain_voting.Miner.{Miner}

abbrev pub test_transaction : Transaction
test_transaction = record {
  size = some 20;
  sender_public_key = codes "abcdefghijklmnopqwer";
  vote = codes "qbcdefghijklmnopqwer";
  timestamp = 0;
}

-- The block `b`, every slot of which points to `test_transaction`.
abbrev pub test_block : Block
test_block = record new_block {
  transaction_array = replicate num_transactions_per_block (some test_transaction);
}

-- What is printed, and the objects that both threads get pointers to.
pub record Launch : Type 0 where
  pub hash : Bytes
  pub leading_zeros : ℕ
  pub output : Bytes
  pub shared : Shared

-- `rest` is what lies behind the name in the first block's hash.
abbrev pub launched :
    (sha1 : Bytes → Bytes) (rest : TwoBytes) (own_address first_peer output : Bytes) → Launch
launched sha1 rest own_address first_peer output = record {
  hash = sha1 (codes "Original String");
  leading_zeros = leading_zeros (1 ∷ 0 ∷ 249 ∷ 248 ∷ 0 ∷ []);
  output = output;
  shared = record {
    tq = SyncQueue.init;
    bq = SyncQueue.init;
    peerq = SyncQueue.init;
    bc = Blockchain.init rest;
    client = some (Client.init own_address first_peer);
  };
}

-- On the arguments behind the program's name; `none` is the exit with 1.
unfoldable pub main : (Bytes → Bytes) → (rest : TwoBytes) → List Bytes → Result (Option Launch)
main sha1 rest (own_address ∷ first_peer ∷ []) = do
  root ← calculate_merkle_root sha1 test_block
  output ← read_bytes (buf root) sha_digest_length
  ok (some (launched sha1 rest own_address first_peer output))
main sha1 rest argv = ok none

-- `processing_thread` up to its loop, on what it is handed.
abbrev pub enter_loop : (first second : Addresses) → Shared → Client.Client → Miner
enter_loop first second s client = record {
  tq = s.tq;
  bq = s.bq;
  peerq = s.peerq;
  bc = s.bc;
  client = (bootstrap_peers second (bootstrap_peers first client).0).0;
  quotafull = false;
  working_block = new_block;
  loop_counter = 0;
  sent = [];
}
