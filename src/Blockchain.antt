-- ===== src/Blockchain.antt =====
-- processor.cpp, `blockchain`: the chain, newest block first, and the set of keys that have voted.
pub mod Adding
pub mod Voters
pub mod Lookup
pub mod Validity
pub mod Tally
pub mod Ballots
pub mod Advance
pub mod Repair
mod Examples
use blockchain_voting.Base.{
  ℕ, zero, suc, ◌+◌, Bool, true, false, not, ◌&&◌, ◌||◌, Option, none, some, List, [], ◌∷◌, ◌++◌,
  ◌==◌, if◌then◌else◌, Result, ok, err, out_of_bounds, uninitialised, assertion, ◌>>=◌, read, Bytes,
  codes, bytes_eq,
}
use blockchain_voting.Memory.{CharPtr, buf, same_hash}
use blockchain_voting.Block.{
  Block, Transaction, Slots, new_block, num_transactions_per_block, read_slots, rounds, keys,
}
use blockchain_voting.SyncQueue.{Queue, push_all}

-- `voted` as its membership test.
abbrev pub Voted : Type 0
Voted = Bytes → Bool

pub record Blockchain : Type 0 where
  pub chain_length : ℕ
  pub blocks : List Block
  pub voted : Voted

pub data BlockValidityCode : Type 0 where
  block_ok prev_block_nonmatch transaction_invalid : BlockValidityCode

abbrev pub insert_key : Bytes → Voted → Voted
insert_key k voted j = bytes_eq k j || voted j

abbrev pub erase_key : Bytes → Voted → Voted
erase_key k voted j = not (bytes_eq k j) && voted j

unfoldable pub insert_keys : List Bytes → Voted → Voted
insert_keys [] voted = voted
insert_keys (k ∷ ks) voted = insert_keys ks (insert_key k voted)

unfoldable pub erase_keys : List Bytes → Voted → Voted
erase_keys [] voted = voted
erase_keys (k ∷ ks) voted = erase_keys ks (erase_key k voted)

-- The first block. Its `finhash` holds the 13 characters copied, and `rest`, what the allocation
-- of 15 bytes has behind them: two bytes that are never written.
abbrev pub TwoBytes : Type 0
TwoBytes = ℕ × ℕ

abbrev pub starting_block : TwoBytes → Block
starting_block rest = record new_block {
  block_number = some 1;
  finhash = buf (codes "STARTINGBLOCK" ++ rest.0 ∷ rest.1 ∷ []);
}

abbrev pub init : TwoBytes → Blockchain
init rest = record { chain_length = 1; blocks = starting_block rest ∷ []; voted = λ _. false }

-- The loop of `verify_transactions`, with the rounds left.
unfoldable pub verify_slots : ℕ → Slots → Voted → Result Bool
verify_slots zero slots voted = ok true
verify_slots (suc n) [] voted = err out_of_bounds
verify_slots (suc n) (none ∷ slots) voted = err uninitialised
verify_slots (suc n) (some t ∷ slots) voted =
    if voted t.sender_public_key then ok false else verify_slots n slots voted

unfoldable pub verify_transactions : Blockchain → Block → Result Bool
unfolding verify_slots
verify_transactions c b = verify_slots num_transactions_per_block b.transaction_array c.voted

-- The other `verify_transactions`, without a block, is marked as not implemented.
unfoldable pub verify_all_transactions : Blockchain → Bool
verify_all_transactions c = true

-- The loops of both `get_block` and of `check_if_block_in_chain`; `none` is `NULL` and `end()`, and
-- an iterator is its distance from the head. An `int` is compared as the `unsigned` of its bits.
unfoldable pub find_number : ℕ → List Block → Result (Option Block)
find_number n [] = ok none
find_number n (b ∷ bs) = do
  block_number ← read b.block_number
  if block_number == n then ok (some b) else find_number n bs

unfoldable pub get_block_by_number : Blockchain → ℕ → Result (Option Block)
unfolding find_number
get_block_by_number c n = find_number n c.blocks

unfoldable pub find_hash : CharPtr → List Block → Result (Option Block)
find_hash hash [] = ok none
find_hash hash (b ∷ bs) = do
  same ← same_hash b.finhash hash
  if same then ok (some b) else find_hash hash bs

unfoldable pub get_block_by_hash : Blockchain → CharPtr → Result (Option Block)
unfolding find_hash
get_block_by_hash c hash = find_hash hash c.blocks

abbrev pub later : Option ℕ → Option ℕ
later none = none
later (some i) = some (suc i)

unfoldable pub find_position : CharPtr → List Block → Result (Option ℕ)
find_position hash [] = ok none
find_position hash (b ∷ bs) = do
  same ← same_hash b.finhash hash
  if same then ok (some 0) else do i ← find_position hash bs; ok (later i)

unfoldable pub check_if_block_in_chain : Blockchain → Block → Result (Option ℕ)
unfolding find_position
check_if_block_in_chain c b = find_position b.finhash c.blocks

unfoldable pub remove_transactions_from_set : Blockchain → Block → Result Blockchain
remove_transactions_from_set c b = do
  ts ← read_slots num_transactions_per_block b.transaction_array
  ok (record c { voted = erase_keys (keys ts) c.voted })

unfoldable pub add_transactions_to_set : Blockchain → Block → Result Blockchain
add_transactions_to_set c b = do
  ts ← read_slots num_transactions_per_block b.transaction_array
  ok (record c { voted = insert_keys (keys ts) c.voted })

unfoldable pub add_transactions_to_queue : Queue Transaction → Block → Result (Queue Transaction)
add_transactions_to_queue q b = do
  ts ← read_slots (rounds b.max_ind) b.transaction_array
  ok (push_all q ts)

-- `blocks_.front()`
abbrev pub front : List Block → Result Block
front [] = err out_of_bounds
front (b ∷ bs) = ok b

unfoldable pub get_head_block : Blockchain → Result Block
get_head_block c = if c.chain_length == 0 then err assertion else front c.blocks

unfoldable pub check_block_validity : Blockchain → Block → Result BlockValidityCode
check_block_validity c b = do
  head_block ← get_head_block c
  same ← same_hash b.prev_block_sha1 head_block.finhash
  if not same then ok prev_block_nonmatch else do
    transaction_verification ← verify_transactions c b
    ok (if transaction_verification then block_ok else transaction_invalid)

-- The block is shared with the chain: the one returned has the number that the chain's has.
unfoldable pub add_block : Blockchain → Block → Result (Blockchain × Block)
add_block c b = do
  let chain_length = c.chain_length + 1
  let b' = record b { block_number = some chain_length }
  c' ← add_transactions_to_set (record c { chain_length = chain_length; blocks = b' ∷ c.blocks }) b
  ok (c', b')
