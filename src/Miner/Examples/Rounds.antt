-- ===== src/Miner/Examples/Rounds.antt =====
-- A full working block that is tried out.
use blockchain_voting.Base.{refl, true, arith}
use blockchain_voting.Memory.{first_char}
use blockchain_voting.Block.Slots.{filled}
use blockchain_voting.Samples.{transaction, votes, hash, full_block, toy_sha1, toy_sha1-IsSha1}
use blockchain_voting.Miner.{Miner, try_magic}
use blockchain_voting.Miner.Mining.{Outcome, try_magic-Outcome}
use blockchain_voting.Miner.Samples.{idle}

abbrev full : Miner
full = record idle { quotafull = true; working_block = full_block 8 (hash 4) (hash 5) }

try_magic-Outcome_example : Outcome toy_sha1 (transaction 8) 3 full (try_magic toy_sha1 3 full)
unfolding first_char
try_magic-Outcome_example =
    try_magic-Outcome toy_sha1 toy_sha1-IsSha1 (transaction 8) (omega arith) 8 refl (λ e. cc) 3 full
      (filled (votes 7 7) 0) refl
