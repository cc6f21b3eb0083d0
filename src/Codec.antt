-- ===== src/Codec.antt =====
-- encoding_helpers.cpp, and the messages of protos/node.proto that it fills.
pub mod RoundTrip
pub mod Mined
pub mod Lifetime
mod Examples
use blockchain_voting.Base.{
  ℕ, suc, ◌+◌, none, some, List, [], ◌∷◌, ◌++◌, map, Result, ok, ◌>>=◌, read, Bytes,
}
use blockchain_voting.Memory.{CharPtr, buf, freed, read_bytes, c_string, public_key_size}
use blockchain_voting.Block.{Block, Transaction, Slots, new_block, read_slots, write_slot, rounds}

pub record TransactionMsg : Type 0 where
  pub sender_public_key : Bytes
  pub vote : Bytes
  pub timestamp : ℕ

-- `magic` is the bit pattern of an int64; the conversions from and to `unsigned long long`, and
-- those between `int` and uint32, keep the bits.
pub record BlockMsg : Type 0 where
  pub block_number : ℕ
  pub prev_block_sha1 : Bytes
  pub magic : ℕ
  pub merkle_root : Bytes
  pub transaction_msg : List TransactionMsg
  pub num_transactions : ℕ
  pub verifier_public_key : Bytes
  pub final_hash : Bytes

-- `size` stays unwritten.
unfoldable pub decode_transaction : TransactionMsg → Transaction
decode_transaction m = record {
  size = none;
  sender_public_key = m.sender_public_key;
  vote = m.vote;
  timestamp = m.timestamp;
}

unfoldable pub encode_transaction : Transaction → TransactionMsg
encode_transaction t = record {
  sender_public_key = t.sender_public_key;
  vote = t.vote;
  timestamp = t.timestamp;
}

-- The loop of `decode_block` from slot `i` on.
unfoldable pub decode_slots : ℕ → List TransactionMsg → Slots → Result Slots
decode_slots i [] slots = ok slots
decode_slots i (m ∷ ms) slots = do
  slots' ← write_slot i (decode_transaction m) slots
  decode_slots (suc i) ms slots'

-- `(char*) s.c_str()`, while the message that owns `s` lives
abbrev pub c_str : Bytes → CharPtr
c_str s = buf (s ++ 0 ∷ [])

unfoldable pub decode_block : BlockMsg → Result Block
unfolding decode_slots
decode_block m = do
  slots ← decode_slots 0 m.transaction_msg new_block.transaction_array
  ok (record {
    block_number = some m.block_number;
    prev_block_sha1 = c_str m.prev_block_sha1;
    magic = m.magic;
    merkle_root = c_str m.merkle_root;
    transaction_array = slots;
    max_ind = m.num_transactions;
    verifier_public_key = c_str m.verifier_public_key;
    finhash = c_str m.final_hash;
  })

-- A decoded block once the message that its pointers lead into is destroyed.
abbrev pub outlived : Block → Block
outlived b = record b {
  prev_block_sha1 = freed;
  merkle_root = freed;
  verifier_public_key = freed;
  finhash = freed;
}

unfoldable pub encode_block : Block → Result BlockMsg
encode_block b = do
  block_number ← read b.block_number
  prev_block_sha1 ← read_bytes b.prev_block_sha1 public_key_size
  merkle_root ← read_bytes b.merkle_root public_key_size
  verifier_public_key ← c_string b.verifier_public_key
  final_hash ← read_bytes b.finhash public_key_size
  ts ← read_slots (rounds b.max_ind) b.transaction_array
  ok (record {
    block_number = block_number;
    prev_block_sha1 = prev_block_sha1;
    magic = b.magic;
    merkle_root = merkle_root;
    transaction_msg = map encode_transaction ts;
    num_transactions = b.max_ind;
    verifier_public_key = verifier_public_key;
    final_hash = final_hash;
  })
