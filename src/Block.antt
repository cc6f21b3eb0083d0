-- ===== src/Block.antt =====
-- processor.hpp and processor.cpp: `transaction`, `block`, and the loops over a block's slots.
pub mod Slots
pub mod Contents
use blockchain_voting.Base.{
  ℕ, zero, suc, ◌^◌, Option, none, some, List, [], ◌∷◌, map, ltb, if◌then◌else◌, replicate, Result,
  ok, err, out_of_bounds, uninitialised, ◌>>=◌, Bytes,
}
use blockchain_voting.Memory.{CharPtr, null, buf}

-- `size` is written nowhere but in a sample of `main`. `timestamp` is the `double`'s bit pattern:
-- the code only copies it.
pub record Transaction : Type 0 where
  pub size : Option ℕ
  pub sender_public_key : Bytes
  pub vote : Bytes
  pub timestamp : ℕ

-- NUM_TRANSACTIONS_PER_BLOCK
abbrev pub num_transactions_per_block : ℕ
num_transactions_per_block = 8

-- A slot that was never written is `none`.
abbrev pub Slots : Type 0
Slots = List (Option Transaction)

-- `max_ind` is the bit pattern of an `int`, `magic` that of an `unsigned long long`.
pub record Block : Type 0 where
  pub block_number : Option ℕ
  pub prev_block_sha1 : CharPtr
  pub magic : ℕ
  pub merkle_root : CharPtr
  pub transaction_array : Slots
  pub max_ind : ℕ
  pub verifier_public_key : CharPtr
  pub finhash : CharPtr

-- `block::block()`, which leaves `block_number` and the slots as they are.
abbrev pub new_block : Block
new_block = record {
  block_number = none;
  prev_block_sha1 = null;
  magic = 0;
  merkle_root = null;
  transaction_array = replicate num_transactions_per_block none;
  max_ind = 0;
  verifier_public_key = buf (97 ∷ 0 ∷ []);
  finhash = null;
}

-- It is marked as not implemented.
unfoldable pub verify_block_number : Block → CharPtr
verify_block_number b = null

-- How often the body of `for (int i = 0; i < n; ++i)` runs, for a 32-bit pattern `n`.
abbrev pub rounds : ℕ → ℕ
rounds n = if ltb n (2 ^ 31) then n else 0

-- The transactions that `n` rounds over the slots read.
unfoldable pub read_slots : ℕ → Slots → Result (List Transaction)
read_slots zero slots = ok []
read_slots (suc n) [] = err out_of_bounds
read_slots (suc n) (none ∷ slots) = err uninitialised
read_slots (suc n) (some t ∷ slots) = do ts ← read_slots n slots; ok (t ∷ ts)

-- `transaction_array[i] = t`
unfoldable pub write_slot : ℕ → Transaction → Slots → Result Slots
write_slot i t [] = err out_of_bounds
write_slot zero t (x ∷ slots) = ok (some t ∷ slots)
write_slot (suc i) t (x ∷ slots) = do rest ← write_slot i t slots; ok (x ∷ rest)

abbrev pub keys : List Transaction → List Bytes
keys = map (λ t. t.sender_public_key)
