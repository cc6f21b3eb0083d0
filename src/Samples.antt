-- ===== src/Samples.antt =====
-- Sample data for the tests: transactions, blocks, chains and a toy digest.
use blockchain_voting.Base.{
  ℕ, zero, suc, ◌-◌, ◌∙◌, none, some, List, [], ◌∷◌, ◌++◌, arith, take, replicate, length-append,
  length-take, Bytes,
}
use blockchain_voting.Memory.{buf}
use blockchain_voting.Block.{Transaction, Block, new_block}
use blockchain_voting.Block.Slots.{filled}
use blockchain_voting.Finhash.{IsSha1}

abbrev pub transaction : ℕ → Transaction
transaction k = record {
  size = none;
  sender_public_key = replicate 20 k;
  vote = 65 ∷ [];
  timestamp = 0;
}

-- Transactions of the voters `k`, `k - 1`, and so on, `n` of them.
abbrev pub votes : ℕ → ℕ → List Transaction
votes zero k = []
votes (suc n) k = transaction k ∷ votes n (k - 1)

abbrev pub hash : ℕ → Bytes
hash k = replicate 20 k

-- A block of eight votes, by the voters `k` down to `k - 7`, on top of the block with hash `p`.
abbrev pub full_block : ℕ → Bytes → Bytes → Block
full_block k p h = record new_block {
  block_number = some 2;
  prev_block_sha1 = buf p;
  merkle_root = buf (hash 9);
  transaction_array = filled (votes 8 k) 0;
  max_ind = 8;
  finhash = buf h;
}

-- A digest of the right length.
abbrev pub toy_sha1 : Bytes → Bytes
toy_sha1 m = take 20 (m ++ replicate 20 1)

pub toy_sha1-IsSha1 : IsSha1 toy_sha1
toy_sha1-IsSha1 = record {
  length_digest =
      λ m. length-take 20 (m ++ replicate 20 1) ∙ omega (arith, length-append m (replicate 20 1));
}
