-- ===== src/Miner/Safety.antt =====
-- What holds in every state that the threads of peer.cpp and server.cpp can reach.
use blockchain_voting.Memory.{CharPtr, c_string}
use blockchain_voting.Codec.{outlived}
use blockchain_voting.Blockchain.{TwoBytes}
use blockchain_voting.Base.{
  ◌≤◌, ◌≡◌, refl, ap, subst, ◌∙◌, true, false, ◌||◌, Option, none, some, List, [], ◌∷◌, ◌++◌, arith,
  length, ok, >>=-eq-ok, ok-injective, Bytes, codes,
}
use blockchain_voting.Block.{Block}
use blockchain_voting.SyncQueue.{push}
use blockchain_voting.Blockchain.Voters.{Disjoint, block_has, chain_has}
use blockchain_voting.Codec.{BlockMsg, decode_block}
use blockchain_voting.Client.{Addresses, add_new_peer}
use blockchain_voting.Client.Network.{IsNetwork, add_new_peer-IsNetwork}
use blockchain_voting.Server
use blockchain_voting.Server.{Shared, Status, answer_addr, find_metadata}
use blockchain_voting.Miner.{Miner, last_number}
use blockchain_voting.Miner.Invariant.{Inv}
use blockchain_voting.Miner.Accepting.{first_half-Inv}
use blockchain_voting.Miner.Working.{second_half-Inv}
use blockchain_voting.Miner.System.{
  start, at_top, Node, node, shared, with_shared, Step, continues, goes_on, finishes,
  receives_block, receives_transaction, gives_peers, Reach, here, next, start-Inv,
  decode_block-HasSlots, All-push,
}

receives_block-Inv :
    (m : Miner) (block_msg : BlockMsg) (r : Shared × Status)
    → Inv m
    → Server.broadcast_block (shared m) block_msg ≡ ok r
    → Inv (with_shared m r.0)
unfolding Server.broadcast_block
receives_block-Inv m block_msg r v e =
    let (b, f, g) = >>=-eq-ok (decode_block block_msg) _ e in
    let pushed : Inv (record m { bq = push m.bq (outlived b) }) = record {
      consistent = v.consistent;
      limited = v.limited;
      network = v.network;
      working = v.working;
      queued = All-push m.bq (outlived b) v.queued (decode_block-HasSlots block_msg b f);
    } in
    subst (λ s. Inv (with_shared m s)) (ap (λ p. p.0) (ok-injective g)) pushed

gives_peers-Inv :
    (m : Miner) (it : Option CharPtr) (r : Shared × Status × List Bytes)
    → Inv m
    → answer_addr (shared m) (some m.client) it ≡ ok r
    → Inv (with_shared m r.0)
unfolding answer_addr
gives_peers-Inv m none r v e = cc
gives_peers-Inv m (some value) r v e =
    let (addr, _, f) = >>=-eq-ok (c_string value) _ e in
    let grown : Inv (record m { client = add_new_peer m.client addr }) = record {
      consistent = v.consistent;
      limited = v.limited;
      network = add_new_peer-IsNetwork m.client addr v.network;
      working = v.working;
      queued = v.queued;
    } in
    subst (λ s. Inv (with_shared m s)) (ap (λ p. p.0) (ok-injective f)) grown

module _ {sha1 : Bytes → Bytes} where
  -- Every step of either thread keeps the invariant.
  Step-Inv : {s t : Node} → Step sha1 s t → Inv s.miner → Inv t.miner
  unfolding Server.broadcast_transaction Server.get_addr
  Step-Inv {s} (continues env m at e to) v = rw to (first_half-Inv env s.miner m true v e)
  Step-Inv {s} (goes_on env m at e to) v = rw to (first_half-Inv env s.miner m false v e)
  Step-Inv {s} (finishes m at e to) v = rw to (second_half-Inv sha1 s.miner m v e)
  Step-Inv {s} (receives_block block_msg r e to) v =
      rw to (receives_block-Inv s.miner block_msg r v e)
  Step-Inv {s} (receives_transaction transaction_msg to) v = rw to (record {
    consistent = v.consistent;
    limited = v.limited;
    network = v.network;
    working = v.working;
    queued = v.queued;
  })
  Step-Inv {s} (gives_peers metadata r e to) v =
      rw to (gives_peers-Inv s.miner (find_metadata (codes "address") metadata) r v e)

  -- However the threads run, the invariant is kept by every step that does not go wrong: both
  -- halves of a round on each of their branches, and each handler. The chain is consistent with its
  -- set of voters and within its limit on numbers, the network is well formed, the working block
  -- holds distinct voters who have not voted, and is full just when `quotafull` says so, and each
  -- block in the queue has eight slots.
  pub Reach-Inv : {s t : Node} → Inv s.miner → Reach sha1 s t → Inv t.miner
  Reach-Inv v here = v
  Reach-Inv v (next r st) = Step-Inv st (Reach-Inv v r)

pub chain_has-append :
    (j : Bytes) (xs ys : List Block) → chain_has j (xs ++ ys) ≡ (chain_has j xs || chain_has j ys)
chain_has-append j [] ys = refl
chain_has-append j (b ∷ xs) ys = ground (arith, chain_has-append j xs ys)

chain_has-middle :
    (j : Bytes) (before after : List Block) (b : Block)
    → block_has j b ≡ true
    → chain_has j (before ++ b ∷ after) ≡ true
chain_has-middle j before after b h = ground (arith, chain_has-append j before (b ∷ after))

Disjoint-split :
    (j : Bytes) (before after : List Block) (b : Block)
    → Disjoint (before ++ b ∷ after)
    → block_has j b ≡ true
    → (chain_has j before ≡ false) × (chain_has j after ≡ false)
Disjoint-split j [] after b d h = (refl, d.0 j h)
Disjoint-split j (x ∷ before) after b d h =
    let rest = Disjoint-split j before after b d.1 h in
    let apart = d.0 j in (ground (arith, chain_has-append j before (b ∷ after)), rest.1)

module _ (sha1 : Bytes → Bytes) (first second : Addresses) (rest : TwoBytes)
    (my_address first_peer : Bytes) (s : Node)
    (r : Reach sha1 (node at_top (start first second rest my_address first_peer)) s) where
  -- In every reachable state, those recorded as having voted are exactly those whose key stands in
  -- a block of the chain.
  pub voted_exact : (j : Bytes) → s.miner.bc.voted j ≡ chain_has j s.miner.bc.blocks
  voted_exact j =
      (Reach-Inv (start-Inv first second rest my_address first_peer) r).consistent.exact j

  -- In every reachable state nobody's vote stands in two blocks of the chain: a key that stands in
  -- a block is recorded as having voted, and stands in no block before or after it.
  pub voted_once :
      (j : Bytes) (before after : List Block) (b : Block)
      → s.miner.bc.blocks ≡ before ++ b ∷ after
      → block_has j b ≡ true
      → (s.miner.bc.voted j ≡ true) × (chain_has j before ≡ false) × (chain_has j after ≡ false)
  voted_once j before after b e h =
      let v = Reach-Inv (start-Inv first second rest my_address first_peer) r in
      let (no_before, no_after) =
        Disjoint-split j before after b (subst Disjoint e v.consistent.disjoint) h in
      (
        v.consistent.exact j ∙ ap (chain_has j) e ∙ chain_has-middle j before after b h,
        no_before,
        no_after,
      )

  -- In every reachable state the network is well formed, the chain has a head block, and
  -- `chain_length` is between 1 and 5.
  pub reachable_bounds :
      IsNetwork s.miner.client
      × (1 ≤ length s.miner.bc.blocks)
      × (1 ≤ s.miner.bc.chain_length)
      × (s.miner.bc.chain_length ≤ last_number)
  reachable_bounds =
      let v = Reach-Inv (start-Inv first second rest my_address first_peer) r in
      (v.network, v.consistent.headed, v.consistent.counted, v.limited)
