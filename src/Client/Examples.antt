-- ===== src/Client/Examples.antt =====
-- A node with a few peers.
use blockchain_voting.Base.{◌≤◌, ◌≡◌, refl, true, [], ◌∷◌, length, Bytes, codes, bytes_eq}
use blockchain_voting.Client.{
  Client, init, Addresses, max_peers, has_peer, add_new_peer, add_new_peers, ask_peers,
  bootstrap_peers,
}
use blockchain_voting.Client.Network.{IsNetwork, init-IsNetwork}
use blockchain_voting.Client.Bootstrap.{bootstrap_peers-IsNetwork}

abbrev own_address : Bytes
own_address = codes "1.1.1.1"

abbrev other : Bytes
other = codes "2.2.2.2"

abbrev third : Bytes
third = codes "3.3.3.3"

abbrev alone : Client
alone = init own_address other

-- The answer of every peer: the node itself, and a third one.
abbrev answers : Addresses
answers p = own_address ∷ third ∷ []

bootstrap_peers-IsNetwork_example :
    IsNetwork (bootstrap_peers answers alone).0
    × ((bootstrap_peers answers alone).1 ≡ length (bootstrap_peers answers alone).0.peer_clients)
    × ((bootstrap_peers answers alone).1 ≤ max_peers)
bootstrap_peers-IsNetwork_example =
    bootstrap_peers-IsNetwork answers alone (init-IsNetwork own_address other)

third_joins : has_peer third (bootstrap_peers answers alone).0.peer_clients ≡ true
unfolding bootstrap_peers bytes_eq has_peer add_new_peer add_new_peers ask_peers
third_joins = refl
