-- ===== src/Booth/Election.antt =====
-- From the booths to the ballot box: votes cast with voting-booth.cpp, which arrive at one node
-- (server.cpp) and end up in its chain (peer.cpp).
use blockchain_voting.Base.{
  ℕ, suc, ◌+◌, ◌*◌, ◌≤◌, ◌<◌, ◌≡◌, refl, sym, ap, ap₂, subst, ◌∙◌, ◌≢◌, inl, inr, true, false, some,
  List, [], ◌∷◌, ◌++◌, map, arith, if◌then◌else◌, Bool-cases, length, take, ok, Bytes, bytes_eq,
  eq_of_bytes_eq, length-map,
}
use mathlib.Core.List.{Perm}
use mathlib.Core.List.Perm
use blockchain_voting.Memory.{buf, first_char, public_key_size}
use blockchain_voting.Block.{Block, num_transactions_per_block}
use blockchain_voting.Finhash.{IsSha1}
use blockchain_voting.Finhash.Laws.{root_of}
use blockchain_voting.Blockchain.{Blockchain, get_head_block}
use blockchain_voting.Blockchain.Tally.{
  Vote, box_of, put_all, tally, votes_for, put_all_any_order, votes_for-Perm,
}
use blockchain_voting.Codec.{TransactionMsg, decode_transaction}
use blockchain_voting.Client.{SinglePeerClient, Addresses, not_an_ip_token, has_peer}
use blockchain_voting.Client.Network.{Distinct}
use blockchain_voting.Booth.{cast_vote}
use blockchain_voting.Booth.Casting.{vote_msg, cast_vote-IsNetwork}
use blockchain_voting.Miner.{Miner, Environment, num_magic_to_try, last_number}
use blockchain_voting.Miner.Mining.{succeeds, attempt}
use blockchain_voting.Miner.Polling.{Arrival, vote_in, AllNew, IsGathering}
use blockchain_voting.Miner.Election.{election}
use blockchain_voting.Miner.Counting.{ballots, election-box_of}

-- One run of a booth: what surrounds it, and its arguments but for the first peer.
pub record Ballot : Type 0 where
  pub get_addr : Addresses
  pub read_file : Bytes → Bytes
  pub now : ℕ
  pub own_address : Bytes
  pub publickeyfile : Bytes
  pub vote : Bytes

abbrev pub choice_of : Ballot → Vote
choice_of b = (b.read_file b.publickeyfile, b.vote)

-- What the booth sends, and to whom, if `node` is its first peer.
abbrev pub cast : Bytes → Ballot → List (Bytes × TransactionMsg)
cast node b =
    (cast_vote b.get_addr b.read_file b.now
      (b.own_address ∷ node ∷ b.publickeyfile ∷ b.vote ∷ [])).1

-- The messages that get to an address.
abbrev pub sent_to : Bytes → List (Bytes × TransactionMsg) → List TransactionMsg
sent_to node [] = []
sent_to node ((addr, msg) ∷ messages) =
    if bytes_eq addr node then msg ∷ sent_to node messages else sent_to node messages

-- A voter's run of the booth, and what the world does in the round of the node behind it.
abbrev pub Voter : Type 0
Voter = Environment × Ballot

-- What arrives at the node from one booth after the other.
abbrev pub mail : Bytes → List Voter → List Arrival
mail node [] = []
mail node ((env, b) ∷ voters) =
    map (λ msg. (env, msg)) (sent_to node (cast node b)) ++ mail node voters

abbrev pub arrival_of : Voter → Arrival
arrival_of (env, b) = (env, vote_msg (b.read_file b.publickeyfile) b.vote b.now)

abbrev to_peers : TransactionMsg → List SinglePeerClient → List (Bytes × TransactionMsg)
to_peers msg = map (λ p. (p.addr, msg))

sent_to-none :
    (node : Bytes) (msg : TransactionMsg) (ps : List SinglePeerClient)
    → has_peer node ps ≡ false
    → sent_to node (to_peers msg ps) ≡ []
unfolding has_peer
sent_to-none node msg [] h = refl
sent_to-none node msg (p ∷ ps) h = ground (arith, sent_to-none node msg ps)

sent_to-one :
    (node : Bytes) (msg : TransactionMsg) (ps : List SinglePeerClient)
    → Distinct ps
    → has_peer node ps ≡ true
    → sent_to node (to_peers msg ps) ≡ msg ∷ []
unfolding has_peer
sent_to-one node msg [] d h = cc
sent_to-one node msg (p ∷ ps) d h = elim (Bool-cases (bytes_eq p.addr node)) [
  | inl e ↦ rw e (
      ap (◌∷◌ msg) (
        sent_to-none node msg ps
          (subst (λ a. has_peer a ps ≡ false) (eq_of_bytes_eq p.addr node e) d.0)))
  | inr e ↦ rw e (sent_to-one node msg ps d.1 (rw e at h))
]

-- A booth sends its vote to its first peer once.
cast-sent_to :
    (node : Bytes) (b : Ballot)
    → bytes_eq node not_an_ip_token ≡ false
    → sent_to node (cast node b) ≡ vote_msg (b.read_file b.publickeyfile) b.vote b.now ∷ []
cast-sent_to node b real =
    let (c, run, v, has) =
      cast_vote-IsNetwork b.get_addr b.read_file b.now b.own_address node b.publickeyfile b.vote
        real in
    ap (λ r. sent_to node r.1) run ∙ sent_to-one node _ c.peer_clients v.distinct has

pub mail-eq :
    (node : Bytes) (voters : List Voter)
    → bytes_eq node not_an_ip_token ≡ false
    → mail node voters ≡ map arrival_of voters
mail-eq node [] real = refl
mail-eq node ((env, b) ∷ voters) real =
    ap₂ (λ msgs rest. map (λ msg. (env, msg)) msgs ++ rest) (cast-sent_to node b real)
      (mail-eq node voters real)

ballots-arrivals :
    (voters : List Voter)
    → ballots (map vote_in (map arrival_of voters)) ≡ map (λ v. choice_of v.1) voters
unfolding decode_transaction
ballots-arrivals [] = refl
ballots-arrivals (v ∷ voters) = ap (◌∷◌ (choice_of v.1)) (ballots-arrivals voters)

-- What the voters cast is what is counted, in whichever order it is listed. Eight voters who have
-- not voted, with different keys, each run a booth whose first peer is the node (not the token that
-- is no address), one after the other; the node has an empty working block and nothing waiting for
-- it, and goes through a round after each. Its chain takes another block, the head's hash has 20
-- bytes or more, the first voter's key 20 characters or more, and the merkle root of that key
-- begins with no zero byte; and among the attempts of the last vote's round and of `length envs`
-- more, 1024 in each, there is one that succeeds. Then after at most `length envs` more rounds the
-- ballot box of the node's chain is the one before, with the eight votes put in, each with the key
-- from its voter's file; and the count of each choice has grown by its votes among the eight.
pub cast_vote-box_of :
    (sha1 : Bytes → Bytes) (law : IsSha1 sha1) (c : Blockchain) (key : Bytes) (magic : ℕ)
    (head : Block) (p : Bytes) (at_head : get_head_block c ≡ ok head)
    (head_hash : head.finhash ≡ buf p) (long_hash : public_key_size ≤ length p)
    (short : c.chain_length < last_number) (node : Bytes)
    (real : bytes_eq node not_an_ip_token ≡ false) (first : Voter)
    (long : public_key_size ≤ length (choice_of first.1).0) (b : ℕ)
    (starts : first_char (buf (root_of sha1 (vote_in (arrival_of first)))) ≡ ok b) (nonzero : b ≢ 0)
    (others : List Voter) (envs : List Environment) (m : Miner) (k : ℕ) (listed : List Vote)
    → IsGathering c key magic m []
    → length others + 1 ≡ num_transactions_per_block
    → AllNew c [] (map arrival_of (first ∷ others))
    → k < suc (length envs) * num_magic_to_try
    → succeeds sha1 (vote_in (arrival_of first)) (attempt magic k) ≡ true
    → Perm (map (λ v. choice_of v.1) (first ∷ others)) listed
    → (n : ℕ) × (n ≤ length envs)
      × (m' : Miner) × (election sha1 (mail node (first ∷ others)) (take n envs) m ≡ ok (some m'))
      × (box_of m'.bc ≡ put_all listed (box_of c))
      × ((choice : Bytes)
          → tally choice (box_of m'.bc) ≡ votes_for choice listed + tally choice (box_of c))
unfolding decode_transaction
cast_vote-box_of sha1 law c key magic head p at_head head_hash long_hash short node real first long
      b starts nonzero others envs m k listed g all new lt hit order =
    let votes = map vote_in (map arrival_of (first ∷ others)) in
    let (n, few, m', ran, box, counts) =
      election-box_of sha1 law c key magic head p at_head head_hash long_hash short
        (arrival_of first) long b starts nonzero (map arrival_of others) envs m k votes g
        (ap (λ k. k + 1) (length-map arrival_of others) ∙ all) new lt hit
        (Perm.refl (ballots votes)) in
    let perm = subst (λ vs. Perm vs listed) (sym (ballots-arrivals (first ∷ others))) order in
    (
      n,
      few,
      m',
      ap (λ arrivals. election sha1 arrivals (take n envs) m) (mail-eq node (first ∷ others) real)
          ∙ ran,
      box ∙ put_all_any_order (ballots votes) listed (box_of c) perm,
      λ choice.
          counts choice
          ∙ ap (λ k. k + tally choice (box_of c))
              (votes_for-Perm choice (ballots votes) listed perm),
    )
