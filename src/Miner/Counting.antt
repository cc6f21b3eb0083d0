-- ===== src/Miner/Counting.antt =====
-- What an election leaves in the ballot box: votes over `BroadcastTransaction` (server.cpp) and the
-- rounds of `processing_thread` (peer.cpp), in any order.
use blockchain_voting.Base.{
  ℕ, suc, ◌+◌, ◌*◌, ◌≤◌, ◌<◌, ◌≡◌, sym, subst, ◌≢◌, true, some, List, [], ◌∷◌, map, length, take,
  ok, Bytes,
}
use mathlib.Core.List.{Perm}
use blockchain_voting.Memory.{buf, first_char, public_key_size}
use blockchain_voting.Block.{Block, Transaction, num_transactions_per_block}
use blockchain_voting.Finhash.{IsSha1}
use blockchain_voting.Finhash.Laws.{root_of}
use blockchain_voting.Blockchain.{Blockchain, get_head_block}
use blockchain_voting.Blockchain.Tally.{
  vote_in_box, Vote, box_of, put_all, tally, votes_for, box_of-added,
}
use blockchain_voting.Miner.{Miner, Environment, num_magic_to_try, last_number}
use blockchain_voting.Miner.Mining.{succeeds, attempt}
use blockchain_voting.Miner.Polling.{Arrival, vote_in, AllNew, IsGathering}
use blockchain_voting.Miner.Election.{election, HasElected, election-HasElected}

abbrev pub ballots : List Transaction → List Vote
ballots = map vote_in_box

HasElected-box :
    (c : Blockchain) (head : Block) (votes us : List Transaction) (m' : Miner)
    → HasElected c head votes m'
    → Perm (ballots votes) (ballots us)
    → (box_of m'.bc ≡ put_all (ballots us) (box_of c))
      × ((choice : Bytes)
          → tally choice (box_of m'.bc) ≡ votes_for choice (ballots us) + tally choice (box_of c))
HasElected-box c head votes us m' e p =
    subst
      (λ x.
        (box_of x ≡ put_all (ballots us) (box_of c))
        × ((choice : Bytes)
            → tally choice (box_of x) ≡ votes_for choice (ballots us) + tally choice (box_of c)))
      (sym e.grown) (box_of-added c e.block votes us e.whole e.holds p)

-- The outcome of an election does not depend on the order in which its votes arrive. Under the
-- conditions of `election-HasElected`, in at most `length envs` more rounds the ballot box of the
-- chain is the one before, with the eight votes put in, in whichever order they are listed; and the
-- count of each choice has grown by its votes among the eight.
pub election-box_of :
    (sha1 : Bytes → Bytes) (law : IsSha1 sha1) (c : Blockchain) (key : Bytes) (magic : ℕ)
    (head : Block) (p : Bytes) (at_head : get_head_block c ≡ ok head)
    (head_hash : head.finhash ≡ buf p) (long_hash : public_key_size ≤ length p)
    (short : c.chain_length < last_number) (first : Arrival)
    (long : public_key_size ≤ length (vote_in first).sender_public_key) (b : ℕ)
    (starts : first_char (buf (root_of sha1 (vote_in first))) ≡ ok b) (nonzero : b ≢ 0)
    (others : List Arrival) (envs : List Environment) (m : Miner) (k : ℕ)
    (listed : List Transaction)
    → IsGathering c key magic m []
    → length others + 1 ≡ num_transactions_per_block
    → AllNew c [] (first ∷ others)
    → k < suc (length envs) * num_magic_to_try
    → succeeds sha1 (vote_in first) (attempt magic k) ≡ true
    → Perm (ballots (map vote_in (first ∷ others))) (ballots listed)
    → (n : ℕ) × (n ≤ length envs)
      × (m' : Miner) × (election sha1 (first ∷ others) (take n envs) m ≡ ok (some m'))
      × (box_of m'.bc ≡ put_all (ballots listed) (box_of c))
      × ((choice : Bytes)
          → tally choice (box_of m'.bc)
            ≡ votes_for choice (ballots listed) + tally choice (box_of c))
election-box_of sha1 law c key magic head p at_head head_hash long_hash short first long b starts
      nonzero others envs m k listed g all new lt hit order =
    let (n, few, m', ran, elected) =
      election-HasElected sha1 law c key magic head p at_head head_hash long_hash short first long b
        starts nonzero others envs m k g all new lt hit in
    let (box, counts) =
      HasElected-box c head (map vote_in (first ∷ others)) listed m' elected order in
    (n, few, m', ran, box, counts)
