-- ===== src/Server/Joining.antt =====
-- Two nodes: the `bootstrapPeers` of one (client.cpp) and the `GetAddr` handler of another
-- (server.cpp).
use blockchain_voting.Memory.{CharPtr, c_string}
use blockchain_voting.Server.{Metadata}
use blockchain_voting.Base.{
  ◌<◌, ◌≡◌, refl, ap, ◌∙◌, true, false, some, List, [], ◌∷◌, map, arith, ok, Bytes, codes, bytes_eq,
  bytes_eq_refl, mem,
}
use blockchain_voting.Client.{
  SinglePeerClient, Client, AddrStub, get_addr_from, init, max_peers, max_second_degree_from_peer,
  not_an_ip_token, has_peer, add_new_peer, get_peers_list, bootstrap_peers,
}
use blockchain_voting.Client.Network.{IsNetwork, admits}
use blockchain_voting.Client.Bootstrap.{
  mem-push_fronts, told, asked, bootstrap_peers-asked, bootstrap_peers_complete,
}
use blockchain_voting.Server.Handlers.{get_addr-IsNetwork}
use blockchain_voting.Server.{Shared, status_ok, find_metadata, get_addr}

mem-map_addr :
    (j : Bytes) (ps : List SinglePeerClient) → mem j (map (λ p. p.addr) ps) ≡ has_peer j ps
unfolding has_peer
mem-map_addr j [] = refl
mem-map_addr j (p ∷ ps) = ground (arith, mem-map_addr j ps)

-- The peers that a node tells are its peers.
pub mem-get_peers_list :
    (c : Client) (j : Bytes) → mem j (get_peers_list c) ≡ has_peer j c.peer_clients
unfolding get_peers_list
mem-get_peers_list c j =
    ground (
      arith,
      mem-push_fronts j (map (λ p. p.addr) c.peer_clients) [],
      mem-map_addr j c.peer_clients,
    )

-- The request of the node at `a` to the node at `b`.
abbrev pub link : (a b : Bytes) → SinglePeerClient
link a b = record { my_addr = a; addr = b }

abbrev pub request : Bytes → List (Bytes × Bytes)
request a = (codes "address", a) ∷ []

-- The request as it arrives: the address with what the memory has behind its characters.
abbrev pub arrived : CharPtr → Metadata
arrived value = (codes "address", value) ∷ []

add_new_peer-init :
    (a b : Bytes)
    → bytes_eq b a ≡ false
    → bytes_eq b not_an_ip_token ≡ false
    → add_new_peer (init a b) b ≡ record (init a b) { peer_clients = link a b ∷ [] }
unfolding add_new_peer has_peer
add_new_peer-init a b other real = rw (other, real)

find_metadata-arrived :
    (value : CharPtr) → find_metadata (codes "address") (arrived value) ≡ some value
unfolding find_metadata bytes_eq
find_metadata-arrived value = refl

get_addr_from-link :
    (stub : AddrStub) (a b : Bytes) (peers : List Bytes)
    → stub (link a b) (request a) max_second_degree_from_peer ≡ some peers
    → get_addr_from stub (link a b) ≡ peers
unfolding get_addr_from
get_addr_from-link stub a b peers e = rw (e, get_addr_from)

-- A node without peers joins the network of another. The node at `a` starts with the address `b` of
-- a node whose client admits `a`, and its request is answered by the handler of that node, which
-- finds the characters of `a` and then a NUL where gRPC has put the address. Then
-- that node has `a` as a peer, the node at `a` has `b` as a peer, and, unless it is full, every
-- peer `j` of the other that is neither `a` nor the token.
pub bootstrap_peers-get_addr :
    (stub : AddrStub) (s : Shared) (server : Client) (a b j : Bytes) (value : CharPtr)
    → c_string value ≡ ok a
    → s.client ≡ some server
    → IsNetwork server
    → admits server a ≡ true
    → bytes_eq b a ≡ false
    → bytes_eq b not_an_ip_token ≡ false
    → stub (link a b) (request a) max_second_degree_from_peer ≡ some (get_peers_list server)
    → has_peer j server.peer_clients ≡ true
    → bytes_eq j a ≡ false
    → bytes_eq j not_an_ip_token ≡ false
    → (bootstrap_peers (get_addr_from stub) (init a b)).1 < max_peers
    → (server' : Client) × (get_addr s (arrived value)
        ≡ ok (record s { client = some server' }, status_ok, get_peers_list server))
      × (has_peer a server'.peer_clients ≡ true)
      × (has_peer b (bootstrap_peers (get_addr_from stub) (init a b)).0.peer_clients ≡ true)
      × (has_peer j (bootstrap_peers (get_addr_from stub) (init a b)).0.peer_clients ≡ true)
unfolding has_peer
bootstrap_peers-get_addr stub s server a b j value whole there v accepts other real delivers known
      not_a not_token room =
    let (server', served, _, grown) =
      get_addr-IsNetwork s (arrived value) value a server (find_metadata-arrived value) whole there
        v in
    let asks : asked (get_addr_from stub) (init a b) ≡ link a b ∷ [] =
      ap (λ c. c.peer_clients) (add_new_peer-init a b other real) in
    let tells : told (get_addr_from stub) j (asked (get_addr_from stub) (init a b)) ≡ true =
      rw
        (
          asks,
          get_addr_from-link stub a b (get_peers_list server) delivers,
          mem-get_peers_list server j,
          known,
        )
        refl in
    (
      server',
      served,
      grown a ∙ ground (arith, bytes_eq_refl a),
      bootstrap_peers-asked (get_addr_from stub) (init a b) b (rw (asks, bytes_eq_refl b) refl),
      bootstrap_peers_complete (get_addr_from stub) (init a b) j tells room not_a not_token,
    )
