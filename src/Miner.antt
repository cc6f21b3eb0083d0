-- ===== src/Miner.antt =====
-- peer.cpp: the state of a miner and the loop of `processing_thread`.
pub mod Invariant
pub mod Rounds
pub mod Mining
pub mod Holding
pub mod Working
pub mod Accepting
pub mod Finishing
pub mod Gathering
pub mod Branches
pub mod System
pub mod Safety
pub mod Ledger
pub mod Loop
pub mod Quiet
pub mod Sending
pub mod Liveness
pub mod Waiting
pub mod Polling
pub mod Election
pub mod Counting
pub mod Delivery
pub mod Serving
pub mod Samples
pub mod Genuine
pub mod Bare
pub mod Atomicity
mod Examples
use blockchain_voting.Base.{
  ℕ, zero, suc, ◌+◌, ◌%◌, ◌^◌, Bool, true, false, ◌||◌, Option, none, some, List, [], ◌∷◌, ◌++◌,
  map, ltb, leb, ◌==◌, if◌then◌else◌, length, Result, ok, ◌>>=◌, ◌>>◌, assert, read, Bytes,
  bytes_eq,
}
use blockchain_voting.Memory.{read_bytes, public_key_size}
use blockchain_voting.Hash.{meets_target}
use blockchain_voting.Block.{
  Block, Transaction, new_block, read_slots, write_slot, rounds, num_transactions_per_block,
}
use blockchain_voting.Finhash.{calculate_finhash}
use blockchain_voting.SyncQueue.{Queue, push_all, pop, pop_nonblocking}
use blockchain_voting.Blockchain.{
  Blockchain, BlockValidityCode, block_ok, prev_block_nonmatch, transaction_invalid, add_block,
  get_head_block, check_block_validity,
}
use blockchain_voting.Blockchain.Repair.{repair_blockchain}
use blockchain_voting.Codec.{TransactionMsg, BlockMsg}
use blockchain_voting.Client.{
  Client, Addresses, Blocks, add_new_peer, bootstrap_peers, broadcast_block, broadcast_transaction,
  get_block,
}

-- What the broadcasts have sent, and to whom, in order.
pub data Sent : Type 0 where
  sent_block : Bytes × BlockMsg → Sent
  sent_transaction : Bytes × TransactionMsg → Sent

-- The objects that the threads share, and the variables of `processing_thread`. Its `new_block` is
-- `working_block`.
pub record Miner : Type 0 where
  pub tq : Queue Transaction
  pub bq : Queue Block
  pub peerq : Queue Bytes
  pub bc : Blockchain
  pub client : Client
  pub quotafull : Bool
  pub working_block : Block
  pub loop_counter : ℕ
  pub sent : List Sent

-- What the rest of the world does during one round: the answers of the peers, and for
-- `repair_blockchain` what its uninitialised variable holds and how many rounds it is given.
pub record Environment : Type 0 where
  pub get_addr : Addresses
  pub blocks : Blocks
  pub stack : ℕ → Option Block
  pub fuel : ℕ

-- BOOTSTRAP_RETRY, NUM_MAGIC_TO_TRY, and the number above which a block fails an assertion.
abbrev pub bootstrap_retry : ℕ
bootstrap_retry = 50

abbrev pub num_magic_to_try : ℕ
num_magic_to_try = 1024

abbrev pub last_number : ℕ
last_number = 5

-- The head of the loop.
unfoldable pub begin_round : Environment → Miner → Miner
begin_round env m =
    let loop_counter = m.loop_counter + 1 in
    if loop_counter % bootstrap_retry == 0
    then record m { client = (bootstrap_peers env.get_addr m.client).0; loop_counter = 0 }
    else record m { loop_counter = loop_counter }

-- `while (peer = ptap->peerq->pop_nonblocking())`, within `n` rounds.
unfoldable pub peer_loop : ℕ → Queue Bytes → Client → Queue Bytes × Client
peer_loop zero q c = (q, c)
peer_loop (suc n) q c = elim (pop_nonblocking q) [
  | none ↦ (q, c)
  | some (peer, q') ↦ peer_loop n q' (add_new_peer c peer)
]

unfoldable pub take_peers : Miner → Miner
unfolding peer_loop
take_peers m =
    let (q, c) = peer_loop (length m.peerq) m.peerq m.client in record m { peerq = q; client = c }

unfoldable pub send_block : Miner → Block → Result Miner
send_block m b = do
  messages ← broadcast_block m.client b
  ok (record m { sent = m.sent ++ map sent_block messages })

-- The transactions of the working block go back to the queue, and a new one is begun.
unfoldable pub restart : Miner → Result Miner
restart m = do
  ts ← read_slots (rounds m.working_block.max_ind) m.working_block.transaction_array
  ok (record m { tq = push_all m.tq ts; quotafull = false; working_block = new_block })

-- The chain takes the block, under a number of 5 or less, and the block is sent to the peers.
unfoldable pub append_block : Miner → Block → Result Miner
unfolding send_block
append_block m b = do
  (bc, b') ← add_block m.bc b
  block_number ← read b'.block_number
  assert (leb block_number last_number)
  send_block (record m { bc = bc }) b'

-- `case PREV_BLOCK_NONMATCH`, for a block with a higher number than the head's.
unfoldable pub repair : Environment → Miner → Block → Result (Miner × Bool)
unfolding send_block restart
repair env m b = do
  (bc, tq, repaired) ←
      repair_blockchain (get_block env.blocks m.client) env.stack env.fuel m.bc m.tq b
  let m' = record m { bc = bc; tq = tq }
  if repaired
      then (do m'' ← send_block m' b; done ← restart m''; ok (done, false))
      else ok (m', true)

-- The `switch`. The second component is `docontinue`.
unfoldable pub handle_block :
    Environment → BlockValidityCode → Miner → Block → Result (Miner × Bool)
unfolding append_block restart repair
handle_block env block_ok m b = do m' ← append_block m b; done ← restart m'; ok (done, false)
handle_block env prev_block_nonmatch m b = do
  head ← get_head_block m.bc
  block_number ← read b.block_number
  head_number ← read head.block_number
  if ltb head_number block_number
      then (assert (leb block_number last_number) >> repair env m b)
      else ok (m, true)
handle_block env transaction_invalid m b = ok (m, true)

unfoldable pub take_block : Environment → Miner → Result (Miner × Bool)
unfolding handle_block
take_block env m = elim (pop_nonblocking m.bq) [
  | none ↦ ok (m, false)
  | some (b, bq) ↦ do
    code ← check_block_validity m.bc b
    handle_block env code (record m { bq = bq }) b
]

-- A round up to `if (docontinue)`.
unfoldable pub first_half : Environment → Miner → Result (Miner × Bool)
unfolding begin_round take_peers take_block
first_half env m = take_block env (take_peers (begin_round env m))

-- Whether a transaction's key stands in the working block.
abbrev pub has_key : Transaction → List Transaction → Bool
has_key t [] = false
has_key t (u ∷ ts) = bytes_eq t.sender_public_key u.sender_public_key || has_key t ts

-- The working block takes the transaction, which is sent to the peers.
unfoldable pub take_in : Miner → Transaction → Result Miner
take_in m t = do
  let w = m.working_block
  slots ← write_slot w.max_ind t w.transaction_array
  let max_ind = w.max_ind + 1
  ok (record m {
    working_block = record w { transaction_array = slots; max_ind = max_ind };
    sent = m.sent ++ map sent_transaction (broadcast_transaction m.client t);
    quotafull = if max_ind == num_transactions_per_block then true else m.quotafull;
  })

module _ (sha1 : Bytes → Bytes) where
  -- The body of `if (leading_zeros(…) >= NUM_LEADING_ZEROS)`, with the working block `w`.
  unfoldable pub finish_block : Miner → Block → Result Miner
  unfolding append_block
  finish_block m w = do
    head ← get_head_block m.bc
    let w' = record w { max_ind = 0; prev_block_sha1 = head.finhash }
    done ← append_block (record m { quotafull = false }) w'
    ok (record done { working_block = new_block })

  -- The `for` loop over `throwaway`, with the rounds left.
  unfoldable pub try_magic : ℕ → Miner → Result Miner
  unfolding finish_block
  try_magic zero m = ok m
  try_magic (suc n) m = do
    let w = m.working_block
    w' ← calculate_finhash sha1 (record w { magic = (w.magic + 1) % 2 ^ 64 })
    hash ← read_bytes w'.finhash public_key_size
    elim (meets_target hash) [
      | true ↦ finish_block m w'
      | false ↦ try_magic n (record m { working_block = w' })
    ]

  unfoldable pub mine : Miner → Result Miner
  unfolding try_magic
  mine m = if m.quotafull then try_magic num_magic_to_try m else ok m

  -- The rest of a round for a transaction from the queue.
  unfoldable pub handle_transaction : Miner → Transaction → Result Miner
  handle_transaction m t = if m.bc.voted t.sender_public_key then ok m else do
    ts ← read_slots (rounds m.working_block.max_ind) m.working_block.transaction_array
    if has_key t ts then mine m else (do m' ← take_in m t; mine m')

  -- With what `pop` gives; `none` is the thread that waits in it.
  unfoldable pub on_pop : Miner → Option (Transaction × Queue Transaction) → Result (Option Miner)
  on_pop m none = ok none
  on_pop m (some (t, tq)) = do m' ← handle_transaction (record m { tq = tq }) t; ok (some m')

  -- The rest of a round.
  unfoldable pub second_half : Miner → Result (Option Miner)
  unfolding on_pop
  second_half m = if m.quotafull then (do m' ← mine m; ok (some m')) else on_pop m (pop m.tq)
