-- ===== src/Network/Honesty.antt =====
-- How often the vote of one voter counts, at the nodes of a network.
use blockchain_voting.Base.{
  ℕ, ◌≤◌, ◌≡◌, refl, sym, ap, ap₂, subst, ◌∙◌, true, false, ◌||◌, List, [], ◌∷◌, ◌++◌, map, drop,
  All, read, Bytes, codes, bytes_eq_comm, All-map,
}
use mathlib.Core.List.{Memᴰ}
use mathlib.Core.Logic.{ite}
use native.Mathlib.Decide.{ℕ_discrete}
use blockchain_voting.Block.{Transaction}
use blockchain_voting.Blockchain.{Blockchain}
use blockchain_voting.Blockchain.Voters.{chain_has}
use blockchain_voting.Blockchain.Tally.{
  vote_in_box, Vote, votes_for, tally, box_of, written_in, chain_transactions, read_slots-written,
}
use blockchain_voting.Blockchain.Ballots.{
  each_once, each_once-Mem, key_in, OneEach, OneEach-append, OneEach-drop, chain_has-eq,
  votes_for-le,
}
use blockchain_voting.Codec.{TransactionMsg, encode_transaction}
use blockchain_voting.Server
use blockchain_voting.Server.{find_metadata}
use blockchain_voting.Miner.{Miner, has_key}
use blockchain_voting.Miner.Invariant.{Inv, DistinctKeys, Mined, unmoved, mined}
use blockchain_voting.Miner.Working.{second_half-Done}
use blockchain_voting.Miner.Safety.{Reach-Inv}
use blockchain_voting.Miner.Ledger.{gives_peers-bc, receives_block-bc}
use blockchain_voting.Miner.Bare.{Bare, first_half-Bares}
use blockchain_voting.Miner.System.{
  start-Inv, Node, Step, continues, goes_on, finishes, receives_block, receives_transaction,
  gives_peers,
}
use blockchain_voting.Network.{Network, Opening, opening, votes, runs, NetReach, opens, then_steps}
use blockchain_voting.Network.Integrity.{NetReach-Reach, chain-cast}
use blockchain_voting.Network.Isolation.{NetReach-Bare}

has_key-eq :
    (t : Transaction) (ts : List Transaction) → has_key t ts ≡ key_in t.sender_public_key ts
has_key-eq t [] = refl
has_key-eq t (u ∷ ts) =
    ap₂ ◌||◌ (bytes_eq_comm t.sender_public_key u.sender_public_key) (has_key-eq t ts)

DistinctKeys-OneEach : (ts : List Transaction) → DistinctKeys ts → OneEach ts
DistinctKeys-OneEach [] d = tt
DistinctKeys-OneEach (t ∷ ts) d = (sym (has_key-eq t ts) ∙ d.0, DistinctKeys-OneEach ts d.1)

fresh-key_in :
    (c : Blockchain) (ts : List Transaction)
    → ((j : Bytes) → c.voted j ≡ chain_has j c.blocks)
    → All (λ t. c.voted t.sender_public_key ≡ false) ts
    → All (λ t. key_in t.sender_public_key (chain_transactions c.blocks) ≡ false) ts
fresh-key_in c [] exact a = tt
fresh-key_in c (t ∷ ts) exact a = (
  chain_has-eq t.sender_public_key c.blocks ∙ sym (exact t.sender_public_key) ∙ a.0,
  fresh-key_in c ts exact a.1,
)

-- Every key stands once in the chain.
abbrev OnceEach : Miner → Type 0
OnceEach m = OneEach (chain_transactions m.bc.blocks)

Mined-OneEach :
    (c c' : Blockchain)
    → ((j : Bytes) → c.voted j ≡ chain_has j c.blocks)
    → Mined c c'
    → OneEach (chain_transactions c.blocks)
    → OneEach (chain_transactions c'.blocks)
Mined-OneEach c c' exact (unmoved e) d =
    subst (λ x. OneEach (chain_transactions x.blocks)) (sym e) d
Mined-OneEach c c' exact (mined b ts len read fresh distinct e) d =
    let grown : OneEach (written_in b.transaction_array ++ chain_transactions c.blocks) =
      subst (λ us. OneEach (us ++ chain_transactions c.blocks))
        (sym (read_slots-written 8 b.transaction_array ts len read))
        (OneEach-append ts (chain_transactions c.blocks) (DistinctKeys-OneEach ts distinct) d
          (fresh-key_in c ts exact fresh)) in
    subst (λ x. OneEach (chain_transactions x.blocks)) (sym e) grown

unchanged :
    (c c' : Blockchain)
    → c' ≡ c
    → OneEach (chain_transactions c.blocks)
    → OneEach (chain_transactions c'.blocks)
unchanged c c' e d = subst (λ x. OneEach (chain_transactions x.blocks)) (sym e) d

shrunk : (m m' : Miner) (i : ℕ) → m'.bc.blocks ≡ drop i m.bc.blocks → OnceEach m → OnceEach m'
shrunk m m' i e d =
    subst (λ bs. OneEach (chain_transactions bs)) (sym e) (OneEach-drop i m.bc.blocks d)

Step-OnceEach :
    {sha1 : Bytes → Bytes} {s t : Node}
    → Step sha1 s t
    → Inv s.miner
    → Bare s.miner
    → OnceEach s.miner
    → OnceEach t.miner
unfolding Server.broadcast_transaction Server.get_addr
Step-OnceEach {s} (continues env m at e to) v w d =
    let (i, cut) = (first_half-Bares env s.miner m true e w).1 in rw to (shrunk s.miner m i cut d)
Step-OnceEach {s} (goes_on env m at e to) v w d =
    let (i, cut) = (first_half-Bares env s.miner m false e w).1 in rw to (shrunk s.miner m i cut d)
Step-OnceEach {sha1} {s} (finishes m at e to) v w d =
    rw to
      (Mined-OneEach s.miner.bc m.bc v.consistent.exact (second_half-Done sha1 s.miner m v e).1 d)
Step-OnceEach {s} (receives_block block_msg r e to) v w d =
    rw to (unchanged s.miner.bc _ (receives_block-bc s.miner block_msg r e) d)
Step-OnceEach {s} (receives_transaction msg to) v w d = rw to d
Step-OnceEach {s} (gives_peers metadata r e to) v w d = rw to (
    unchanged s.miner.bc _ (gives_peers-bc s.miner (find_metadata (codes "address") metadata) r e)
      d)

module _ {sha1 : Bytes → Bytes} (os : ℕ → Opening) where
  node-Inv : {n : Network} → NetReach sha1 (opening os) n → (i : ℕ) → Inv (n.nodes i).miner
  node-Inv r i =
      let o = os i in
      Reach-Inv (start-Inv o.first o.second o.rest o.my_address o.first_peer)
        (NetReach-Reach os r i)

  NetReach-OnceEach :
      {n : Network} → NetReach sha1 (opening os) n → (i : ℕ) → OnceEach (n.nodes i).miner
  NetReach-OnceEach opens i = tt
  NetReach-OnceEach (then_steps r (votes get_addr read_file now argv)) i = NetReach-OnceEach r i
  NetReach-OnceEach (then_steps {k} r (runs i t st c)) j =
      elim (ℕ_discrete i j) as (λ d. OnceEach (ite d t (k.nodes j)).miner) [
        | yes e ↦ Step-OnceEach st (node-Inv r i) (NetReach-Bare os r i) (NetReach-OnceEach r i)
        | no other ↦ NetReach-OnceEach r j
      ]

-- What a message says of a vote.
abbrev pub vote_sent : TransactionMsg → Vote
vote_sent msg = (msg.sender_public_key, msg.vote)

vote_sent-Mem :
    (t : Transaction) (msgs : List TransactionMsg)
    → Memᴰ (encode_transaction t) msgs
    → Memᴰ (vote_in_box t) (map vote_sent msgs)
unfolding encode_transaction
vote_sent-Mem t [] m = elim m [ ]
vote_sent-Mem t (msg ∷ msgs) (Memᴰ.head e) = Memᴰ.head (ap vote_sent e)
vote_sent-Mem t (msg ∷ msgs) (Memᴰ.tail m) = Memᴰ.tail (vote_sent-Mem t msgs m)

tally-chain :
    (choice : Bytes) (c : Blockchain)
    → tally choice (box_of c) ≡ votes_for choice (map vote_in_box (chain_transactions c.blocks))
unfolding tally
tally-chain choice c = refl

-- What the booths have voted, each key with each choice once, to however many peers it was sent.
abbrev pub votes_cast : Network → List Vote
votes_cast n = each_once (map vote_sent n.cast)

-- Nobody's vote counts twice, and no choice gets more votes than were cast for it. In every network
-- that comes about from started nodes, whatever they and the voters do in whatever order, and
-- however what they send is delivered: no key stands twice in the chain of a node, not even in one
-- block; and for each choice the count in its ballot box is at most the number of different keys
-- with which the booths have voted for it.
pub tally-le :
    (sha1 : Bytes → Bytes) (os : ℕ → Opening) (n : Network)
    → NetReach sha1 (opening os) n
    → (i : ℕ) (choice : Bytes)
    → OneEach (chain_transactions (n.nodes i).miner.bc.blocks)
      × (tally choice (box_of (n.nodes i).miner.bc) ≤ votes_for choice (votes_cast n))
tally-le sha1 os n r i choice =
    let c = (n.nodes i).miner.bc in
    let ts = chain_transactions c.blocks in
    let once = NetReach-OnceEach os r i in
    let all_cast =
      All-map (λ t. Memᴰ (encode_transaction t) n.cast) (λ t. Memᴰ (vote_in_box t) (votes_cast n))
        ts (λ t m. each_once-Mem (vote_in_box t) (map vote_sent n.cast) (vote_sent-Mem t n.cast m))
        (chain-cast sha1 os n r i).0 in
    (
      once,
      subst (λ k. k ≤ votes_for choice (votes_cast n)) (sym (tally-chain choice c))
          (votes_for-le choice ts (votes_cast n) once all_cast),
    )
