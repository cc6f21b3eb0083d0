-- ===== src/Miner/Invariant.antt =====
-- What holds of a miner (peer.cpp) between the steps of its threads.
use blockchain_voting.Base.{
  ℕ, ◌+◌, ◌≤◌, ◌≡◌, refl, Bool, false, List, [], ◌∷◌, arith, ◌==◌, length, All, ok,
}
use blockchain_voting.Block.{Block, Transaction, new_block, num_transactions_per_block, read_slots}
use blockchain_voting.Block.Slots.{filled}
use blockchain_voting.Blockchain.{Voted, Blockchain}
use blockchain_voting.Blockchain.Adding.{added}
use blockchain_voting.Blockchain.Advance.{Advance, stays, grows}
use blockchain_voting.Blockchain.Voters.{IsConsistent}
use blockchain_voting.Client.Network.{IsNetwork}
use blockchain_voting.Miner.{Miner, has_key, last_number}

-- No key occurs twice.
abbrev pub DistinctKeys : List Transaction → Type 0
DistinctKeys [] = Unit {0}
DistinctKeys (t ∷ ts) = (has_key t ts ≡ false) × DistinctKeys ts

-- The working block holds `ts` in its first slots: distinct voters, none of whom has voted.
pub record Holds (voted : Voted) (quotafull : Bool) (w : Block) (ts : List Transaction) (free : ℕ)
    : Type 0 where
  pub slots : w.transaction_array ≡ filled ts free
  pub room : length ts + free ≡ num_transactions_per_block
  pub count : w.max_ind ≡ length ts
  pub full : quotafull ≡ (length ts == num_transactions_per_block)
  pub fresh : All (λ t. voted t.sender_public_key ≡ false) ts
  pub distinct : DistinctKeys ts

pub record IsWorking (voted : Voted) (quotafull : Bool) (w : Block) : Type 0 where
  pub ts : List Transaction
  pub free : ℕ
  pub holds : Holds voted quotafull w ts free

-- A block that came over the wire has eight slots.
abbrev pub HasSlots : Block → Type 0
HasSlots b = length b.transaction_array ≡ num_transactions_per_block

pub record Inv (m : Miner) : Type 0 where
  pub consistent : IsConsistent m.bc
  pub limited : m.bc.chain_length ≤ last_number
  pub network : IsNetwork m.client
  pub working : IsWorking m.bc.voted m.quotafull m.working_block
  pub queued : All HasSlots m.bq

-- What a part of a round does: the invariant holds afterwards, and the chain has moved in one of
-- the ways that it can.
abbrev pub Next : Miner → Miner → Type 0
Next m m' = Inv m' × Advance m.bc m'.bc

-- How mining moves the chain: not at all, or by a whole block of distinct voters who have not
-- voted.
pub data Mined (c c' : Blockchain) : Type 0 where
  unmoved : c' ≡ c → Mined c c'
  mined :
      (b : Block) (ts : List Transaction)
      → length b.transaction_array ≡ num_transactions_per_block
      → read_slots num_transactions_per_block b.transaction_array ≡ ok ts
      → All (λ t. c.voted t.sender_public_key ≡ false) ts
      → DistinctKeys ts
      → c' ≡ added c b ts
      → Mined c c'

pub Mined-Advance : {c c' : Blockchain} → Mined c c' → Advance c c'
Mined-Advance (unmoved e) = stays e
Mined-Advance (mined b ts len written fresh distinct e) = grows b ts len written fresh e

abbrev pub Done : Miner → Miner → Type 0
Done m m' = Inv m' × Mined m.bc m'.bc

pub new_block-IsWorking : (voted : Voted) → IsWorking voted false new_block
new_block-IsWorking voted = record {
  ts = [];
  free = num_transactions_per_block;
  holds = record {
    slots = refl;
    room = omega arith;
    count = refl;
    full = refl;
    fresh = tt;
    distinct = tt;
  };
}
