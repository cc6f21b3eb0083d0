-- ===== src/Finhash/Examples.antt =====
-- Hashes of sample blocks with the toy digest.
use blockchain_voting.Base.{◌≡◌, refl, none, some, [], ◌∷◌, arith, replicate, ok, ◌>>=◌}
use blockchain_voting.Block.{Block}
use blockchain_voting.Block.Slots.{filled}
use blockchain_voting.Samples.{transaction, votes, hash, full_block, toy_sha1, toy_sha1-IsSha1}
use blockchain_voting.Merkle.{calculate_merkle_root}
use blockchain_voting.Merkle.Tree.{tree_hash, same_leaves, calculate_merkle_root-eq}
use blockchain_voting.Finhash.{calculate_finhash}
use blockchain_voting.Finhash.Laws.{digests, calculate_finhash_blind}

abbrev sample : Block
sample = full_block 8 (hash 4) (hash 5)

-- The same first key, but another vote, another time, and no other transaction.
abbrev forged : Block
forged = record sample {
  transaction_array =
      some (record (transaction 8) { vote = 66 ∷ []; timestamp = 7 }) ∷ replicate 7 none;
}

calculate_merkle_root-eq_example :
    calculate_merkle_root toy_sha1 sample
    ≡ ok (tree_hash toy_sha1 (same_leaves 3 (toy_sha1 (replicate 20 8))))
calculate_merkle_root-eq_example =
    calculate_merkle_root-eq toy_sha1 sample (transaction 8) (filled (votes 7 7) 0) refl
      (omega arith)

calculate_finhash_blind_example :
    (calculate_finhash toy_sha1 sample >>= λ d. ok (digests d))
    ≡ (calculate_finhash toy_sha1 forged >>= λ d. ok (digests d))
calculate_finhash_blind_example =
    calculate_finhash_blind toy_sha1 toy_sha1-IsSha1 sample forged (transaction 8) _
      (filled (votes 7 7) 0) (replicate 7 none) refl refl (omega arith) (omega arith) refl refl
