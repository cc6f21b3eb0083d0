-- ===== src/Merkle.antt =====
-- processor.cpp, `block::calculate_merkle_root`. `sha1 m` is what `SHA1` of OpenSSL writes for `m`.
pub mod Tree
use blockchain_voting.Base.{
  ℕ, zero, suc, ◌+◌, List, [], ◌∷◌, ◌++◌, Result, ok, err, out_of_bounds, out_of_fuel, ◌>>=◌, read,
  Bytes,
}
use blockchain_voting.Memory.{buf, read_bytes, public_key_size}
use blockchain_voting.Block.{Slots, Transaction, Block, num_transactions_per_block}

-- `transaction_array[0]`
unfoldable pub slot_zero : Slots → Result Transaction
slot_zero [] = err out_of_bounds
slot_zero (slot ∷ slots) = read slot

module _ (sha1 : Bytes → Bytes) where
  -- The first loop. Each of the rounds hashes PUBLIC_KEY_SIZE characters of the key in slot 0; a
  -- `std::string` ends with a NUL.
  unfoldable pub leaf_hashes : ℕ → Slots → Result (List Bytes)
  unfolding slot_zero read_bytes
  leaf_hashes zero slots = ok []
  leaf_hashes (suc n) slots = do
    t ← slot_zero slots
    data_to_hash ← read_bytes (buf (t.sender_public_key ++ 0 ∷ [])) public_key_size
    rest ← leaf_hashes n slots
    ok (sha1 data_to_hash ∷ rest)

  -- The `for` loop over one level, `old_hashes[i]` and `old_hashes[i+1]` at a time.
  unfoldable pub pair_hashes : List Bytes → Result (List Bytes)
  pair_hashes [] = ok []
  pair_hashes (x ∷ []) = err out_of_bounds
  pair_hashes (x ∷ y ∷ rest) = do new ← pair_hashes rest; ok (sha1 (x ++ y) ∷ new)

  -- `while (1)`: the level above, until it is one hash.
  unfoldable pub root_loop : ℕ → List Bytes → Result Bytes
  unfolding pair_hashes
  root_loop zero old_hashes = err out_of_fuel
  root_loop (suc n) old_hashes = do
    new_hashes ← pair_hashes old_hashes
    elim new_hashes [
      | [] ↦ root_loop n []
      | x ∷ [] ↦ ok x
      | x ∷ y ∷ more ↦ root_loop n (x ∷ y ∷ more)
    ]

  -- Eight leaves need three rounds (Merkle/Tree.antt).
  unfoldable pub calculate_merkle_root : Block → Result Bytes
  unfolding leaf_hashes root_loop
  calculate_merkle_root b = do
    old_hashes ← leaf_hashes num_transactions_per_block b.transaction_array
    root_loop num_transactions_per_block old_hashes
