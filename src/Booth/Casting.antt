-- ===== src/Booth/Casting.antt =====
-- The way of a vote from voting-booth.cpp to the node that works on it.
use blockchain_voting.Base.{
  ℕ, ◌+◌, ◌<◌, ◌≡◌, refl, ◌∙◌, true, false, some, [], ◌∷◌, map, length, ok, Bytes, bytes_eq,
  bytes_eq_refl,
}
use blockchain_voting.Block.{Transaction, num_transactions_per_block}
use blockchain_voting.SyncQueue.{Queue, push, pop}
use blockchain_voting.SyncQueue.Order.{pop-push}
use blockchain_voting.Codec.{TransactionMsg, encode_transaction, decode_transaction}
use blockchain_voting.Client.{
  Client, Addresses, init, not_an_ip_token, has_peer, add_new_peer, bootstrap_peers,
  broadcast_transaction,
}
use blockchain_voting.Client.Network.{IsNetwork, init-IsNetwork, has_peer-add_new_peer}
use blockchain_voting.Client.Bootstrap.{bootstrap_peers-IsNetwork, bootstrap_peers-asked}
use blockchain_voting.Server
use blockchain_voting.Booth.{vote_of, cast_vote}
use blockchain_voting.Miner.{Miner, second_half}
use blockchain_voting.Miner.Invariant.{Inv}
use blockchain_voting.Miner.System.{shared, with_shared}
use blockchain_voting.Miner.Gathering.{gathered, second_half-gathers}

-- The message of a vote.
abbrev pub vote_msg : (publickey vote : Bytes) (now : ℕ) → TransactionMsg
vote_msg publickey vote now = record { sender_public_key = publickey; vote = vote; timestamp = now }

-- With four arguments and a first peer that is not the token, the booth exits with 0 and has sent
-- the vote, with the key from the file, to each peer of a well-formed network that has the first
-- peer.
pub cast_vote-IsNetwork :
    (get_addr : Addresses) (read_file : Bytes → Bytes) (now : ℕ)
    (own_address first_peer publickeyfile vote : Bytes)
    → bytes_eq first_peer not_an_ip_token ≡ false
    → (c : Client) × (cast_vote get_addr read_file now
          (own_address ∷ first_peer ∷ publickeyfile ∷ vote ∷ [])
        ≡ (0, map (λ p. (p.addr, vote_msg (read_file publickeyfile) vote now)) c.peer_clients))
      × IsNetwork c
      × (has_peer first_peer c.peer_clients ≡ true)
unfolding cast_vote broadcast_transaction encode_transaction has_peer
cast_vote-IsNetwork get_addr read_file now own_address first_peer publickeyfile vote real =
    let c = init not_an_ip_token first_peer in
    let same = bytes_eq_refl first_peer in
    let joins : has_peer first_peer (add_new_peer c first_peer).peer_clients ≡ true =
      has_peer-add_new_peer c first_peer first_peer ∙ (rw (same, real) refl) in
    (
      (bootstrap_peers get_addr c).0,
      refl,
      (bootstrap_peers-IsNetwork get_addr c (init-IsNetwork not_an_ip_token first_peer)).0,
      bootstrap_peers-asked get_addr c first_peer joins,
    )

-- Under the invariant, with room for more than one transaction in the working block: the vote that
-- a node receives last is the one its processing thread works on next, whatever waits in the queue.
-- The vote is thrown out if its voter has voted in the chain or stands in the working block, and
-- goes into the working block and to the peers otherwise.
pub second_half-broadcast_transaction :
    (sha1 : Bytes → Bytes) (m : Miner) (publickey vote : Bytes) (now : ℕ) (v : Inv m)
    → m.quotafull ≡ false
    → length v.working.ts + 1 < num_transactions_per_block
    → (rest : Queue Transaction) × (second_half sha1
          (with_shared m (Server.broadcast_transaction (shared m) (vote_msg publickey vote now)).0)
        ≡ ok (some (gathered (record m { tq = rest }) (vote_of publickey vote now) v.working.ts)))
unfolding Server.broadcast_transaction decode_transaction
second_half-broadcast_transaction sha1 m publickey vote now v room short =
    let t = vote_of publickey vote now in
    let received : Inv (record m { tq = push m.tq t }) = record {
      consistent = v.consistent;
      limited = v.limited;
      network = v.network;
      working = v.working;
      queued = v.queued;
    } in
    let (rest, popped) = pop-pushed m.tq t in
    (
      rest,
      second_half-gathers sha1 (record m { tq = push m.tq t }) t rest received room short popped,
    )
  where
    pop-pushed :
        (q : Queue Transaction) (t : Transaction)
        → (rest : Queue Transaction) × (pop (push q t) ≡ some (t, rest))
    pop-pushed [] t = ([], (pop-push [] t t).0)
    pop-pushed (x ∷ q) t = (push q t, (pop-push q x t).1)
