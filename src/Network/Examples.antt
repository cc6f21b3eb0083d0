-- ===== src/Network/Examples.antt =====
-- Nodes that know of no other, two elections at one of them, and what they leave.
mod Nodes
use blockchain_voting.Base.{
  ℕ, ◌+◌, ◌-◌, ◌≤◌, ◌≡◌, refl, subst, true, List, [], ◌∷◌, ◌++◌, map, arith, drop, replicate, All,
  ◌>>◌, Bytes, codes, bytes_eq,
}
use mathlib.Core.List.{Memᴰ}
use mathlib.Core.List.Perm
use blockchain_voting.Memory.{first_char}
use blockchain_voting.Hash.{meets_target}
use blockchain_voting.Finhash.{le_bytes}
use blockchain_voting.Samples.{hash}
use blockchain_voting.Blockchain
use blockchain_voting.Blockchain.{get_head_block, insert_keys}
use blockchain_voting.Blockchain.Adding.{numbered}
use blockchain_voting.Blockchain.Ballots.{OneEach}
use blockchain_voting.Blockchain.Tally.{Vote, box_of, put_all, tally, votes_for, chain_transactions}
use blockchain_voting.Blockchain.Voters.{Disjoint}
use blockchain_voting.Booth.Election.{Voter, choice_of, arrival_of, mail, mail-eq}
use blockchain_voting.Codec.{encode_transaction, decode_transaction}
use blockchain_voting.Client.{bootstrap_peers, add_new_peers, ask_peers, add_new_peer}
use blockchain_voting.Miner.{Miner}
use blockchain_voting.Miner.Mining.{succeeds, attempt}
use blockchain_voting.Miner.Polling.{vote_in, AllNew}
use blockchain_voting.Miner.Samples.{
  quick_sha1, quick_sha1-IsSha1, nobody, own, waiting, idle, first_arrivals, first_block,
  grown_chain, grown, grows, grown-IsGathering,
}
use blockchain_voting.Miner.System.{at_top, node}
use blockchain_voting.Network.{Network, Opening, opening, NetReach, opens}
use blockchain_voting.Network.Counting.{cast_vote-NetReach}
use blockchain_voting.Network.Honesty.{votes_cast, tally-le}
use blockchain_voting.Network.Integrity.{chain-cast}
use blockchain_voting.Network.Runs.{sent_by, At, AllSent, mail-AllSent, election-At, votes-At}
use blockchain_voting.SyncQueue

abbrev pub same_openings : ℕ → Opening
same_openings i = record {
  first = nobody;
  second = nobody;
  rest = (0, 0);
  my_address = own;
  first_peer = own;
}

abbrev begun : Network
begun = opening same_openings

-- The voter `k`, for the choice `vote`.
abbrev voter : ℕ → Bytes → Voter
voter k vote = (
  waiting,
  record {
    get_addr = nobody;
    read_file = λ path. replicate 20 k;
    now = 0;
    own_address = codes "9.9.9.9";
    publickeyfile = codes "key.pem";
    vote = vote;
  },
)

-- The first election, at node 3.
abbrev first_voters : List Voter
first_voters =
    voter 18 (codes "A")
    ∷ voter 17 (codes "A")
    ∷ voter 16 (codes "A")
    ∷ voter 15 (codes "A")
    ∷ voter 14 (codes "A")
    ∷ voter 13 (codes "A")
    ∷ voter 12 (codes "A")
    ∷ voter 11 (codes "A")
    ∷ []

same_mail : mail own first_voters ≡ first_arrivals
unfolding encode_transaction bytes_eq
same_mail = mail-eq own first_voters refl

pub after_first : At quick_sha1 begun 3 ([] ++ sent_by own first_voters) (node at_top grown)
unfolding bootstrap_peers add_new_peers ask_peers add_new_peer bytes_eq
after_first =
    election-At quick_sha1 begun 3 (sent_by own first_voters) first_arrivals [] idle grown
      (votes-At quick_sha1 begun 3 own first_voters [] (node at_top idle)
        (begun, opens, refl, refl))
      (subst (AllSent (sent_by own first_voters)) same_mail (mail-AllSent own first_voters)) grows

chain-cast_example :
    All
      (λ t. Memᴰ (encode_transaction t) after_first.0.cast)
      (chain_transactions (after_first.0.nodes 3).miner.bc.blocks)
    × Disjoint (after_first.0.nodes 3).miner.bc.blocks
chain-cast_example = chain-cast quick_sha1 same_openings after_first.0 after_first.1 3

tally-le_example :
    OneEach (chain_transactions (after_first.0.nodes 3).miner.bc.blocks)
    × (tally (codes "A") (box_of (after_first.0.nodes 3).miner.bc)
        ≤ votes_for (codes "A") (votes_cast after_first.0))
tally-le_example = tally-le quick_sha1 same_openings after_first.0 after_first.1 3 (codes "A")

-- The second election, on the chain that the first one has left.
abbrev yes_vote : Bytes
yes_vote = codes "yes"

abbrev no_vote : Bytes
no_vote = codes "no"

abbrev others : List Voter
others =
    voter 2 yes_vote
    ∷ voter 3 no_vote
    ∷ voter 4 yes_vote
    ∷ voter 5 yes_vote
    ∷ voter 6 no_vote
    ∷ voter 7 yes_vote
    ∷ voter 8 yes_vote
    ∷ []

-- The votes, with the first two the other way round.
abbrev listed : List Vote
listed =
    (replicate 20 2, yes_vote)
    ∷ (replicate 20 1, no_vote)
    ∷ map (λ v. choice_of v.1) (drop 1 others)

all_new : AllNew grown_chain [] (map arrival_of (voter 1 no_vote ∷ others))
unfolding bytes_eq decode_transaction insert_keys
all_new = (
  refl,
  refl,
  (
    refl,
    refl,
    (refl, refl, (refl, refl, (refl, refl, (refl, refl, (refl, refl, (refl, refl, tt)))))),
  ),
)

hit : succeeds quick_sha1 (vote_in (arrival_of (voter 1 no_vote))) (attempt 0 0) ≡ true
unfolding meets_target le_bytes decode_transaction
hit = refl

cast_vote-NetReach_example :
    (n' : Network) × NetReach quick_sha1 after_first.0 n'
    × (n'.cast ≡ after_first.0.cast ++ sent_by own (voter 1 no_vote ∷ others))
    × (box_of (n'.nodes 3).miner.bc ≡ put_all listed (box_of grown_chain))
    × ((choice : Bytes)
        → tally choice (box_of (n'.nodes 3).miner.bc)
          ≡ votes_for choice listed + tally choice (box_of grown_chain))
unfolding first_char get_head_block bytes_eq decode_transaction
cast_vote-NetReach_example =
    cast_vote-NetReach quick_sha1 quick_sha1-IsSha1 after_first.0 3 grown_chain (97 ∷ []) 0
      (numbered (Blockchain.init (0, 0)) first_block) (hash 0) refl refl (omega arith) (omega arith)
      own refl (voter 1 no_vote) (omega arith) 1 refl (λ e. cc) others (waiting ∷ []) grown 0 listed
      after_first.2 grown-IsGathering refl all_new (omega arith) hit (Perm.swap _ _ _)

-- A round of node 3 up to `tq->pop()`.
abbrev next_round : Miner
next_round = record grown { loop_counter = 9 }
