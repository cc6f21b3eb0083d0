-- ===== src/Network/Isolation.antt =====
-- Whether the nodes of a network take over each other's blocks.
use blockchain_voting.Memory.{CharPtr, c_string}
use blockchain_voting.Codec.{outlived}
use blockchain_voting.Base.{
  ℕ, ◌≡◌, sym, ap, subst, ◌∙◌, true, false, Option, none, some, List, [], ◌∷◌, ok, >>=-eq-ok,
  ok-injective, Bytes, codes, All-append,
}
use mathlib.Core.Logic.{ite}
use native.Mathlib.Decide.{ℕ_discrete}
use blockchain_voting.SyncQueue.{push}
use blockchain_voting.Block.{Block}
use blockchain_voting.Codec.{BlockMsg, TransactionMsg, decode_slots, decode_block}
use blockchain_voting.Server
use blockchain_voting.Server.{Shared, Status, answer_addr, find_metadata}
use blockchain_voting.Miner.{Miner, sent_block}
use blockchain_voting.Miner.System.{
  Node, shared, with_shared, Step, continues, goes_on, finishes, receives_block,
  receives_transaction, gives_peers,
}
use blockchain_voting.Miner.Finishing.{IsEmpty}
use blockchain_voting.Miner.Bare.{IsBare, SentEmpty, Bare, first_half-Bares}
use blockchain_voting.Miner.Bare.Mining.{second_half-Bare}
use blockchain_voting.Network.{
  Network, Opening, opening, Carried, sent_of, NetStep, votes, runs, NetReach, opens, then_steps,
}
use blockchain_voting.Network.Tracing.{All-Memᴰ}

decode_block-IsBare :
    (m : BlockMsg) (b : Block) (addr : Bytes) → IsEmpty (addr, m) → decode_block m ≡ ok b → IsBare b
unfolding decode_block decode_slots
decode_block-IsBare m b addr empty e =
    let h = rw (empty.0) at e in
    let at = ok-injective h in
    (ap (λ b. b.max_ind) (sym at) ∙ empty.1, ap (λ b. b.transaction_array) (sym at))

receives_block-Bare :
    (m : Miner) (block_msg : BlockMsg) (r : Shared × Status) (addr : Bytes)
    → Server.broadcast_block (shared m) block_msg ≡ ok r
    → IsEmpty (addr, block_msg)
    → Bare m
    → Bare (with_shared m r.0)
unfolding Server.broadcast_block push
receives_block-Bare m block_msg r addr e empty v =
    let (b, f, g) = >>=-eq-ok (decode_block block_msg) _ e in
    let pushed : Bare (record m { bq = push m.bq (outlived b) }) = record {
      queued =
          All-append IsBare m.bq (outlived b ∷ []) v.queued
            (decode_block-IsBare block_msg b addr empty f, tt);
      sent = v.sent;
    } in
    subst (λ s. Bare (with_shared m s)) (ap (λ p. p.0) (ok-injective g)) pushed

receives_transaction-Bare :
    (m : Miner) (msg : TransactionMsg)
    → Bare m
    → Bare (with_shared m (Server.broadcast_transaction (shared m) msg).0)
unfolding Server.broadcast_transaction
receives_transaction-Bare m msg v = record { queued = v.queued; sent = v.sent }

gives_peers-Bare :
    (m : Miner) (it : Option CharPtr) (r : Shared × Status × List Bytes)
    → answer_addr (shared m) (some m.client) it ≡ ok r
    → Bare m
    → Bare (with_shared m r.0)
unfolding answer_addr
gives_peers-Bare m none r e v = cc
gives_peers-Bare m (some value) r e v =
    let (addr, _, f) = >>=-eq-ok (c_string value) _ e in
    subst (λ s. Bare (with_shared m s)) (ap (λ p. p.0) (ok-injective f))
      (record { queued = v.queued; sent = v.sent })

Step-Bare :
    {sha1 : Bytes → Bytes} {s t : Node} (n : Network) (st : Step sha1 s t)
    → Carried n st
    → ((i : ℕ) → Bare (n.nodes i).miner)
    → Bare s.miner
    → Bare t.miner
unfolding Server.get_addr
Step-Bare {s} n (continues env m at e to) c all v =
    rw to ((first_half-Bares env s.miner m true e v).0)
Step-Bare {s} n (goes_on env m at e to) c all v =
    rw to ((first_half-Bares env s.miner m false e v).0)
Step-Bare {sha1} {s} n (finishes m at e to) c all v = rw to (second_half-Bare sha1 s.miner m e v)
Step-Bare {s} n (receives_block block_msg r e to) (i, addr, was_sent) all v = rw to (
    receives_block-Bare s.miner block_msg r addr e
      (All-Memᴰ SentEmpty (sent_block (addr, block_msg)) (sent_of n i) (all i).sent was_sent) v)
Step-Bare {s} n (receives_transaction msg to) c all v =
    rw to (receives_transaction-Bare s.miner msg v)
Step-Bare {s} n (gives_peers metadata r e to) c all v =
    rw to (gives_peers-Bare s.miner (find_metadata (codes "address") metadata) r e v)

NetStep-Bare :
    {sha1 : Bytes → Bytes} {n k : Network}
    → NetStep sha1 n k
    → ((i : ℕ) → Bare (n.nodes i).miner)
    → (i : ℕ) → Bare (k.nodes i).miner
NetStep-Bare (votes get_addr read_file now argv) v i = v i
NetStep-Bare {n} (runs i t st c) v j =
    elim (ℕ_discrete i j) as (λ d. Bare (ite d t (n.nodes j)).miner) [
      | yes e ↦ Step-Bare n st c v (v i)
      | no other ↦ v j
    ]

module _ {sha1 : Bytes → Bytes} (os : ℕ → Opening) where
  pub NetReach-Bare :
      {n : Network} → NetReach sha1 (opening os) n → (i : ℕ) → Bare (n.nodes i).miner
  NetReach-Bare opens i = record { queued = tt; sent = tt }
  NetReach-Bare (then_steps r st) i = NetStep-Bare st (NetReach-Bare r) i
