-- ===== src/Network/Counting.antt =====
-- An election in a network of nodes (peer.cpp) and booths (voting-booth.cpp).
use blockchain_voting.Base.{
  ℕ, suc, ◌+◌, ◌*◌, ◌≤◌, ◌<◌, ◌≡◌, refl, ap, ◌∙◌, ◌≢◌, true, false, List, [], ◌∷◌, ◌++◌, map,
  length, take, ok, Bytes, bytes_eq,
}
use mathlib.Core.List.{Perm}
use blockchain_voting.Memory.{buf, first_char, public_key_size}
use blockchain_voting.Block.{Block, num_transactions_per_block}
use blockchain_voting.Finhash.{IsSha1}
use blockchain_voting.Finhash.Laws.{root_of}
use blockchain_voting.Blockchain.{Blockchain, get_head_block}
use blockchain_voting.Blockchain.Tally.{Vote, box_of, put_all, tally, votes_for}
use blockchain_voting.Client.{not_an_ip_token}
use blockchain_voting.Booth.Election.{Voter, choice_of, arrival_of, mail, cast_vote-box_of}
use blockchain_voting.Miner.{Miner, Environment, num_magic_to_try, last_number}
use blockchain_voting.Miner.System.{at_top, node}
use blockchain_voting.Miner.Mining.{succeeds, attempt}
use blockchain_voting.Miner.Polling.{vote_in, AllNew, IsGathering}
use blockchain_voting.Network.{Network, NetReach, opens}
use blockchain_voting.Network.Runs.{sent_by, votes-At, election-At, mail-AllSent, AllSent-append}

-- Whatever has gone on in a network, it can go on to elect. A node stands at the top of its loop,
-- with an empty working block and nothing waiting for it; its chain takes another block, and the
-- head's hash has 20 bytes or more. Eight voters who have not voted, with different keys, have
-- booths whose first peer is the node (not the token that is no address); the first voter's key has
-- 20 characters or more, the merkle root of that key begins with no zero byte, and among the
-- attempts of the last vote's round and of `length envs` more, 1024 in each, there is one that
-- succeeds. Then there is a course of the network in which only these voters cast votes, and at
-- whose end the ballot box of the node's chain is the one before with the eight votes put in, in
-- whichever order they are listed, and the count of each choice has grown by its votes among the
-- eight.
pub cast_vote-NetReach :
    (sha1 : Bytes → Bytes) (law : IsSha1 sha1) (n : Network) (i : ℕ) (c : Blockchain) (key : Bytes)
    (magic : ℕ) (head : Block) (p : Bytes) (at_head : get_head_block c ≡ ok head)
    (head_hash : head.finhash ≡ buf p) (long_hash : public_key_size ≤ length p)
    (short : c.chain_length < last_number) (address : Bytes)
    (real : bytes_eq address not_an_ip_token ≡ false) (first : Voter)
    (long : public_key_size ≤ length (choice_of first.1).0) (b : ℕ)
    (starts : first_char (buf (root_of sha1 (vote_in (arrival_of first)))) ≡ ok b) (nonzero : b ≢ 0)
    (others : List Voter) (envs : List Environment) (m : Miner) (k : ℕ) (listed : List Vote)
    → n.nodes i ≡ node at_top m
    → IsGathering c key magic m []
    → length others + 1 ≡ num_transactions_per_block
    → AllNew c [] (map arrival_of (first ∷ others))
    → k < suc (length envs) * num_magic_to_try
    → succeeds sha1 (vote_in (arrival_of first)) (attempt magic k) ≡ true
    → Perm (map (λ v. choice_of v.1) (first ∷ others)) listed
    → (n' : Network) × NetReach sha1 n n'
      × (n'.cast ≡ n.cast ++ sent_by address (first ∷ others))
      × (box_of (n'.nodes i).miner.bc ≡ put_all listed (box_of c))
      × ((choice : Bytes)
          → tally choice (box_of (n'.nodes i).miner.bc)
            ≡ votes_for choice listed + tally choice (box_of c))
cast_vote-NetReach sha1 law n i c key magic head p at_head head_hash long_hash short address real
      first long b starts nonzero others envs m k listed stands g all new lt hit order =
    let (rounds, few, m', ran, box, counts) =
      cast_vote-box_of sha1 law c key magic head p at_head head_hash long_hash short address real
        first long b starts nonzero others envs m k listed g all new lt hit order in
    let voters = first ∷ others in
    let mine = sent_by address voters in
    let (n', reach, ends, cast) =
      election-At sha1 n i (n.cast ++ mine) (mail address voters) (take rounds envs) m m'
        (votes-At sha1 n i address voters n.cast (node at_top m) (n, opens, stands, refl))
        (AllSent-append n.cast mine (mail address voters) (mail-AllSent address voters)) ran in
    let same : (n'.nodes i).miner ≡ m' = ap (λ s. s.miner) ends in
    (
      n',
      reach,
      cast,
      ap (λ x. box_of x.bc) same ∙ box,
      λ choice. ap (λ x. tally choice (box_of x.bc)) same ∙ counts choice,
    )
