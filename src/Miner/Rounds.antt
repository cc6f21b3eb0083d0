-- ===== src/Miner/Rounds.antt =====
-- The head of a round of `processing_thread` (peer.cpp): peers.
use blockchain_voting.Base.{
  ℕ, zero, suc, ◌+◌, ◌%◌, ◌≤◌, ◌≡◌, refl, ap, ◌∙◌, inl, inr, [], ◌∷◌, arith, ◌==◌, Bool-cases,
  length, Bytes,
}
use blockchain_voting.SyncQueue.{Queue, pop_nonblocking, back}
use blockchain_voting.Client.{Client, add_new_peer}
use blockchain_voting.Client.Network.{IsNetwork, add_new_peer-IsNetwork, add_new_peer_twice}
use blockchain_voting.Client.Bootstrap.{bootstrap_peers-IsNetwork}
use blockchain_voting.Miner.{
  Miner, Environment, begin_round, peer_loop, take_peers, bootstrap_retry,
}
use blockchain_voting.Miner.Invariant.{Inv}

begin_round-Inv : (env : Environment) (m : Miner) → Inv m → Inv (begin_round env m)
unfolding begin_round
begin_round-Inv env m v = elim (Bool-cases ((m.loop_counter + 1) % bootstrap_retry == 0)) [
  | inl e ↦ rw e (record {
    consistent = v.consistent;
    limited = v.limited;
    network = (bootstrap_peers-IsNetwork env.get_addr m.client v.network).0;
    working = v.working;
    queued = v.queued;
  })
  | inr e ↦ rw e (record {
    consistent = v.consistent;
    limited = v.limited;
    network = v.network;
    working = v.working;
    queued = v.queued;
  })
]

-- The loop over the queue of peers ends with the queue empty, and leaves the network well formed.
pub peer_loop-IsNetwork :
    (n : ℕ) (q : Queue Bytes) (c : Client)
    → length q ≤ n
    → IsNetwork c
    → ((peer_loop n q c).0 ≡ []) × IsNetwork (peer_loop n q c).1
unfolding peer_loop pop_nonblocking
peer_loop-IsNetwork zero [] c h v = (refl, v)
peer_loop-IsNetwork zero (x ∷ q) c h v = absurd (omega arith)
peer_loop-IsNetwork (suc n) [] c h v = (refl, v)
peer_loop-IsNetwork (suc n) (x ∷ q) c h v =
    peer_loop-IsNetwork n q (add_new_peer c (back x q)) (omega arith)
      (add_new_peer-IsNetwork c (back x q) v)

add_new_peer_newest :
    (x : Bytes) (q : Queue Bytes) (c : Client) (n : ℕ)
    → length q ≤ n
    → peer_loop n q (add_new_peer c (back x q)) ≡ ([], add_new_peer c (back x q))
unfolding peer_loop pop_nonblocking back
add_new_peer_newest x [] c zero h = refl
add_new_peer_newest x [] c (suc n) h = refl
add_new_peer_newest x (y ∷ q) c zero h = absurd (omega arith)
add_new_peer_newest x (y ∷ q) c (suc n) h =
    ap (peer_loop n q) (add_new_peer_twice c (back y q)) ∙ add_new_peer_newest y q c n (omega arith)

take_peers-Inv : (m : Miner) → Inv m → Inv (take_peers m)
unfolding take_peers
take_peers-Inv m v = record {
  consistent = v.consistent;
  limited = v.limited;
  network = (peer_loop-IsNetwork (length m.peerq) m.peerq m.client (omega arith) v.network).1;
  working = v.working;
  queued = v.queued;
}

pub opening-Inv : (env : Environment) (m : Miner) → Inv m → Inv (take_peers (begin_round env m))
opening-Inv env m v = take_peers-Inv (begin_round env m) (begin_round-Inv env m v)

-- The head of a round changes the client, its queue of peers and the counter.
pub opening-same :
    (env : Environment) (m : Miner)
    → (c : Client) × (q : Queue Bytes) × (l : ℕ) × (take_peers (begin_round env m)
        ≡ record m { client = c; peerq = q; loop_counter = l })
unfolding begin_round take_peers
opening-same env m =
    let o = take_peers (begin_round env m) in
    (
      o.client,
      o.peerq,
      o.loop_counter,
      elim (Bool-cases ((m.loop_counter + 1) % bootstrap_retry == 0)) [
        | inl e ↦ rw e refl
        | inr e ↦ rw e refl
      ],
    )

-- The head of a round leaves the chain alone, and the queue of blocks.
pub opening-bc : (env : Environment) (m : Miner) → (take_peers (begin_round env m)).bc ≡ m.bc
unfolding begin_round take_peers
opening-bc env m = elim (Bool-cases ((m.loop_counter + 1) % bootstrap_retry == 0)) [
  | inl e ↦ rw e
  | inr e ↦ rw e
]

pub opening-bq : (env : Environment) (m : Miner) → (take_peers (begin_round env m)).bq ≡ m.bq
unfolding begin_round take_peers
opening-bq env m = elim (Bool-cases ((m.loop_counter + 1) % bootstrap_retry == 0)) [
  | inl e ↦ rw e
  | inr e ↦ rw e
]
