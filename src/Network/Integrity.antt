-- ===== src/Network/Integrity.antt =====
-- Where the votes in the chains of a network of nodes come from.
use blockchain_voting.Base.{ℕ, subst, none, some, List, [], ◌∷◌, All, Bytes, All-append, All-map}
use mathlib.Core.List.{Memᴰ}
use mathlib.Core.List.Memᴰ
use mathlib.Core.Logic.{ite}
use native.Mathlib.Decide.{ℕ_discrete}
use blockchain_voting.Block.{Block, Slots}
use blockchain_voting.Block.Contents.{EachSlot, Each}
use blockchain_voting.Blockchain.Tally.{written_in, chain_transactions}
use blockchain_voting.Codec.{TransactionMsg, encode_transaction}
use blockchain_voting.Miner.{Miner, Sent, sent_block, sent_transaction}
use blockchain_voting.Blockchain.Voters.{Disjoint}
use blockchain_voting.Miner.Safety.{Reach-Inv}
use blockchain_voting.Miner.System.{start-Inv, Reach, here, next}
use blockchain_voting.Miner.Genuine.{Good, GoodSent, Genuine, Each-new_block}
use blockchain_voting.Network.{
  Network, Opening, opened, opening, NetStep, votes, runs, NetReach, opens, then_steps,
}
use blockchain_voting.Network.Tracing.{Step-Genuine}

abbrev IsCast : Network → TransactionMsg → Type 0
IsCast n msg = Memᴰ msg n.cast

-- Every transaction anywhere at a node was cast.
abbrev AllCast : Network → Type 0
AllCast n = (i : ℕ) → Genuine (IsCast n) (n.nodes i).miner

module _ {Q R : TransactionMsg → Type 0} (f : (msg : TransactionMsg) → Q msg → R msg) where
  EachSlot-mono : (slots : Slots) → EachSlot (Good Q) slots → EachSlot (Good R) slots
  EachSlot-mono [] g = tt
  EachSlot-mono (none ∷ slots) g = EachSlot-mono slots g
  EachSlot-mono (some t ∷ slots) g = (f (encode_transaction t) g.0, EachSlot-mono slots g.1)

  GoodSent-mono : (s : Sent) → GoodSent Q s → GoodSent R s
  GoodSent-mono (sent_block (addr, m)) g = All-map Q R m.transaction_msg f g
  GoodSent-mono (sent_transaction (addr, m)) g = f m g

  Genuine-mono : (m : Miner) → Genuine Q m → Genuine R m
  Genuine-mono m v =
      let each = λ (b : Block). EachSlot-mono b.transaction_array in
      record {
        queued = All-map (Good Q) (Good R) m.tq (λ t g. f (encode_transaction t) g) v.queued;
        blocks_queued = All-map (Each (Good Q)) (Each (Good R)) m.bq each v.blocks_queued;
        chain = All-map (Each (Good Q)) (Each (Good R)) m.bc.blocks each v.chain;
        working = each m.working_block v.working;
        sent = All-map (GoodSent Q) (GoodSent R) m.sent GoodSent-mono v.sent;
      }

opened-Genuine : (Q : TransactionMsg → Type 0) (o : Opening) → Genuine Q (opened o).miner
opened-Genuine Q o = record {
  queued = tt;
  blocks_queued = tt;
  chain = (Each-new_block Q, tt);
  working = Each-new_block Q;
  sent = tt;
}

NetStep-AllCast : {sha1 : Bytes → Bytes} {n k : Network} → NetStep sha1 n k → AllCast n → AllCast k
NetStep-AllCast {n} (votes get_addr read_file now argv) v i =
    Genuine-mono (λ msg m. Memᴰ.append_left _ m) (n.nodes i).miner (v i)
NetStep-AllCast {n} (runs i t st c) v j =
    elim (ℕ_discrete i j) as (λ d. Genuine (IsCast n) (ite d t (n.nodes j)).miner) [
      | yes e ↦ Step-Genuine (IsCast n) n st c (λ msg m. m) (λ k. (v k).sent) (v i)
      | no other ↦ v j
    ]

module _ {sha1 : Bytes → Bytes} (os : ℕ → Opening) where
  NetReach-AllCast : {n : Network} → NetReach sha1 (opening os) n → AllCast n
  NetReach-AllCast opens i = opened-Genuine _ (os i)
  NetReach-AllCast (then_steps r st) i = NetStep-AllCast st (NetReach-AllCast r) i

  -- What a node does in a network it can do by itself.
  pub NetReach-Reach :
      {n : Network}
      → NetReach sha1 (opening os) n
      → (i : ℕ) → Reach sha1 (opened (os i)) (n.nodes i)
  NetReach-Reach opens i = here
  NetReach-Reach (then_steps r (votes get_addr read_file now argv)) i = NetReach-Reach r i
  NetReach-Reach (then_steps {k} r (runs i t st c)) j =
      elim (ℕ_discrete i j) as (λ d. Reach sha1 (opened (os j)) (ite d t (k.nodes j))) [
        | yes e ↦ subst (λ x. Reach sha1 (opened (os x)) t) e (next (NetReach-Reach r i) st)
        | no other ↦ NetReach-Reach r j
      ]

written_in-All :
    (Q : TransactionMsg → Type 0) (slots : Slots)
    → EachSlot (Good Q) slots
    → All (Good Q) (written_in slots)
written_in-All Q [] g = tt
written_in-All Q (none ∷ slots) g = written_in-All Q slots g
written_in-All Q (some t ∷ slots) g = (g.0, written_in-All Q slots g.1)

chain_transactions-All :
    (Q : TransactionMsg → Type 0) (bs : List Block)
    → All (Each (Good Q)) bs
    → All (Good Q) (chain_transactions bs)
chain_transactions-All Q [] g = tt
chain_transactions-All Q (b ∷ bs) g =
    All-append (Good Q) (written_in b.transaction_array) (chain_transactions bs)
      (written_in-All Q b.transaction_array g.0) (chain_transactions-All Q bs g.1)

-- Nobody's vote is made up, changed or put into two blocks. In every network that comes about from
-- started nodes, however many nodes and voters there are, whatever they do in whatever order, and
-- however what they send is delivered, late, twice, to somebody else or not at all: every
-- transaction in the chain of every node is one that a booth has sent, with the same key, the same
-- vote and the same time; and no key stands in two blocks of that chain.
pub chain-cast :
    (sha1 : Bytes → Bytes) (os : ℕ → Opening) (n : Network)
    → NetReach sha1 (opening os) n
    → (i : ℕ)
    → All (λ t. Memᴰ (encode_transaction t) n.cast) (chain_transactions (n.nodes i).miner.bc.blocks)
      × Disjoint (n.nodes i).miner.bc.blocks
chain-cast sha1 os n r i =
    let o = os i in
    (
      chain_transactions-All (IsCast n) (n.nodes i).miner.bc.blocks (NetReach-AllCast os r i).chain,
      (Reach-Inv (start-Inv o.first o.second o.rest o.my_address o.first_peer)
          (NetReach-Reach os r i)).consistent.disjoint,
    )
