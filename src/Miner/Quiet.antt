-- ===== src/Miner/Quiet.antt =====
-- The first half of a round of `processing_thread` (peer.cpp) in which nothing waits.
use blockchain_voting.Base.{
  ℕ, ◌+◌, ◌%◌, ◌≡◌, ap, ◌∙◌, inl, inr, false, none, [], ◌==◌, Bool-cases, ok,
}
use blockchain_voting.SyncQueue.{pop_nonblocking}
use blockchain_voting.Client
use blockchain_voting.Client.{SinglePeerClient, Client}
use blockchain_voting.Miner.{
  Miner, Environment, begin_round, peer_loop, take_peers, take_block, first_half, bootstrap_retry,
}

-- The miner after the head of a round in which nothing waits.
abbrev pub opened : Miner → Client → ℕ → Miner
opened m c loop_counter = record m { client = c; loop_counter = loop_counter; peerq = [] }

opening-opened :
    (env : Environment) (m : Miner)
    → m.peerq ≡ []
    → (c : Client) × (l : ℕ) × (take_peers (begin_round env m) ≡ opened m c l)
unfolding begin_round take_peers peer_loop
opening-opened env m none_wait = elim (Bool-cases ((m.loop_counter + 1) % bootstrap_retry == 0)) [
  | inl e ↦ ((Client.bootstrap_peers env.get_addr m.client).0, 0, rw (e, none_wait))
  | inr e ↦ (m.client, m.loop_counter + 1, rw (e, none_wait))
]

take_block-none : (env : Environment) (m : Miner) → m.bq ≡ [] → take_block env m ≡ ok (m, false)
unfolding take_block pop_nonblocking
take_block-none env m h =
    let nothing : pop_nonblocking m.bq ≡ none = ap pop_nonblocking h in rw (nothing, take_block)

pub first_half-quiet :
    (env : Environment) (m : Miner)
    → m.peerq ≡ []
    → m.bq ≡ []
    → (c : Client) × (l : ℕ) × (first_half env m ≡ ok (opened m c l, false))
unfolding first_half
first_half-quiet env m none_wait no_blocks =
    let (c, l, e) = opening-opened env m none_wait in
    (c, l, ap (take_block env) e ∙ take_block-none env (opened m c l) no_blocks)
