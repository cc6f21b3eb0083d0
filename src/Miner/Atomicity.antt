-- ===== src/Miner/Atomicity.antt =====
-- `processing_thread` (peer.cpp) with the second half of its round in small steps: the `pop`, the
-- work on its transaction, and each attempt of the mining loop. Blocks and transactions may arrive
-- in between.
pub mod Framing
pub mod Parts
pub mod Refining
pub mod Simulation
pub mod Equivalence
mod Examples
use blockchain_voting.Server.{Metadata}
use blockchain_voting.Base.{
  ℕ, suc, ◌+◌, ◌%◌, ◌^◌, ◌≡◌, Bool, true, false, some, List, if◌then◌else◌, Result, ok, ◌>>=◌, ◌>>◌,
  Bytes,
}
use blockchain_voting.Memory.{read_bytes, public_key_size}
use blockchain_voting.Hash.{meets_target}
use blockchain_voting.Block.{Block, Transaction, read_slots, rounds}
use blockchain_voting.Finhash.{calculate_finhash}
use blockchain_voting.SyncQueue.{Queue, pop}
use blockchain_voting.Codec.{TransactionMsg, BlockMsg}
use blockchain_voting.Server
use blockchain_voting.Server.{Shared, Status}
use blockchain_voting.Miner.{
  Miner, Environment, first_half, has_key, take_in, finish_block, num_magic_to_try,
}
use blockchain_voting.Miner.System.{Pc, at_top, at_pop, shared, with_shared}

-- Where the processing thread stands: where it stands between the halves of rounds, behind the
-- `pop` of a transaction, or in the mining loop with so many attempts left.
pub data Phase : Type 0 where
  between : Pc → Phase
  popped : Transaction → Phase
  mining : ℕ → Phase

pub record Thread : Type 0 where
  pub phase : Phase
  pub miner : Miner

abbrev pub thread : Phase → Miner → Thread
thread phase m = record { phase = phase; miner = m }

-- From the test of `voted` to the mining loop.
unfoldable pub consider : Miner → Transaction → List Transaction → Result Miner
consider m t ts = if has_key t ts then ok m else take_in m t

-- `if (quotafull)`, in front of the loop.
abbrev pub mining_next : Bool → Phase
mining_next quotafull = if quotafull then mining num_magic_to_try else between at_top

module _ (sha1 : Bytes → Bytes) where
  -- The block of one attempt, and whether its hash meets the target.
  unfoldable pub attempted : Block → Result (Block × Bool)
  attempted w = do
    w' ← calculate_finhash sha1 (record w { magic = (w.magic + 1) % 2 ^ 64 })
    hash ← read_bytes w'.finhash public_key_size
    ok (w', meets_target hash)

  pub data SmallStep (s t : Thread) : Type 0 where
    continues :
        (env : Environment) (m : Miner)
        → s.phase ≡ between at_top
        → first_half env s.miner ≡ ok (m, true)
        → t ≡ thread (between at_top) m
        → SmallStep s t
    goes_on :
        (env : Environment) (m : Miner)
        → s.phase ≡ between at_top
        → first_half env s.miner ≡ ok (m, false)
        → t ≡ thread (between at_pop) m
        → SmallStep s t
    pops :
        (u : Transaction) (tq : Queue Transaction)
        → s.phase ≡ between at_pop
        → s.miner.quotafull ≡ false
        → pop s.miner.tq ≡ some (u, tq)
        → t ≡ thread (popped u) (record s.miner { tq = tq })
        → SmallStep s t
    skips_pop :
        s.phase ≡ between at_pop
        → s.miner.quotafull ≡ true
        → t ≡ thread (mining num_magic_to_try) s.miner
        → SmallStep s t
    throws_out :
        (u : Transaction)
        → s.phase ≡ popped u
        → s.miner.bc.voted u.sender_public_key ≡ true
        → t ≡ thread (between at_top) s.miner
        → SmallStep s t
    considers :
        (u : Transaction) (ts : List Transaction) (m : Miner)
        → s.phase ≡ popped u
        → s.miner.bc.voted u.sender_public_key ≡ false
        → read_slots (rounds s.miner.working_block.max_ind) s.miner.working_block.transaction_array
          ≡ ok ts
        → consider s.miner u ts ≡ ok m
        → t ≡ thread (mining_next m.quotafull) m
        → SmallStep s t
    fails :
        (n : ℕ) (w : Block)
        → s.phase ≡ mining (suc n)
        → attempted s.miner.working_block ≡ ok (w, false)
        → t ≡ thread (mining n) (record s.miner { working_block = w })
        → SmallStep s t
    succeeds :
        (n : ℕ) (w : Block) (m : Miner)
        → s.phase ≡ mining (suc n)
        → attempted s.miner.working_block ≡ ok (w, true)
        → finish_block sha1 s.miner w ≡ ok m
        → t ≡ thread (between at_top) m
        → SmallStep s t
    gives_up : s.phase ≡ mining 0 → t ≡ thread (between at_top) s.miner → SmallStep s t
    receives_block :
        (block_msg : BlockMsg) (r : Shared × Status)
        → Server.broadcast_block (shared s.miner) block_msg ≡ ok r
        → t ≡ thread s.phase (with_shared s.miner r.0)
        → SmallStep s t
    receives_transaction :
        (msg : TransactionMsg)
        → t
          ≡ thread s.phase
              (with_shared s.miner (Server.broadcast_transaction (shared s.miner) msg).0)
        → SmallStep s t
    gives_peers :
        (pc : Pc) (metadata : Metadata) (r : Shared × Status × List Bytes)
        → s.phase ≡ between pc
        → Server.get_addr (shared s.miner) metadata ≡ ok r
        → t ≡ thread s.phase (with_shared s.miner r.0)
        → SmallStep s t

  pub data SmallReach (s : Thread) : Thread → Type 0 where
    stays : SmallReach s s
    then_step : {t u : Thread} → SmallReach s t → SmallStep t u → SmallReach s u
