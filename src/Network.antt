-- ===== src/Network.antt =====
-- Many nodes (peer.cpp) and voters (voting-booth.cpp), and what gets from one to another: what a
-- node or a booth has sent may arrive at any node, at any time, more than once, or never.
pub mod Tracing
pub mod Integrity
pub mod Isolation
pub mod Honesty
pub mod Runs
pub mod Counting
mod Examples
use blockchain_voting.Blockchain.{TwoBytes}
use blockchain_voting.Base.{ℕ, ◌+◌, ◌⊎◌, List, [], ◌++◌, map, ◌>>◌, Bytes}
use mathlib.Core.List.{Memᴰ}
use blockchain_voting.SyncQueue.Threads.{update}
use blockchain_voting.Codec.{TransactionMsg}
use blockchain_voting.Client.{Addresses}
use blockchain_voting.Booth.{cast_vote}
use blockchain_voting.Miner.{Sent, sent_block, sent_transaction}
use blockchain_voting.Miner.System.{
  start, at_top, Node, node, Step, continues, goes_on, finishes, receives_block,
  receives_transaction, gives_peers,
}

-- `cast` is what the booths have sent.
pub record Network : Type 0 where
  pub nodes : ℕ → Node
  pub cast : List TransactionMsg

-- How a node is started: its arguments, and what its two calls of `bootstrapPeers` bring.
pub record Opening : Type 0 where
  pub first : Addresses
  pub second : Addresses
  pub rest : TwoBytes
  pub my_address : Bytes
  pub first_peer : Bytes

abbrev pub opened : Opening → Node
opened o = node at_top (start o.first o.second o.rest o.my_address o.first_peer)

-- Every node is started, and nobody has voted.
abbrev pub opening : (ℕ → Opening) → Network
opening os = record { nodes = λ i. opened (os i); cast = [] }

abbrev pub sent_of : Network → ℕ → List Sent
sent_of n i = (n.nodes i).miner.sent

-- That what a step receives has been sent by a node, or by a booth.
abbrev pub Carried : {sha1 : Bytes → Bytes} (n : Network) {s t : Node} → Step sha1 s t → Type 0
Carried n (continues env m at e to) = Unit {0}
Carried n (goes_on env m at e to) = Unit {0}
Carried n (finishes m at e to) = Unit {0}
Carried n (receives_block block_msg r e to) =
    (i : ℕ) × (addr : Bytes) × Memᴰ (sent_block (addr, block_msg)) (sent_of n i)
Carried n (receives_transaction transaction_msg to) =
    Memᴰ transaction_msg n.cast
    ⊎ ((i : ℕ) × (addr : Bytes) × Memᴰ (sent_transaction (addr, transaction_msg)) (sent_of n i))
Carried n (gives_peers metadata r e to) = Unit {0}

-- A run of a booth, or a step of a node.
pub data NetStep (sha1 : Bytes → Bytes) (n : Network) : Network → Type 0 where
  votes :
      (get_addr : Addresses) (read_file : Bytes → Bytes) (now : ℕ) (argv : List Bytes)
      → NetStep sha1 n
          (record n { cast = n.cast ++ map (λ p. p.1) (cast_vote get_addr read_file now argv).1 })
  runs :
      (i : ℕ) (t : Node) (st : Step sha1 (n.nodes i) t)
      → Carried n st
      → NetStep sha1 n (record n { nodes = update n.nodes i t })

pub data NetReach (sha1 : Bytes → Bytes) (n : Network) : Network → Type 0 where
  opens : NetReach sha1 n n
  then_steps : {k l : Network} → NetReach sha1 n k → NetStep sha1 k l → NetReach sha1 n l
