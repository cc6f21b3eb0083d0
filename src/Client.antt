-- ===== src/Client.antt =====
-- client.cpp: the peers of a node, and what is sent to them. The replies of the stubs, which gRPC
-- brings, are parameters: `none` and the empty list are what a call that fails leaves.
pub mod Network
pub mod Bootstrap
pub mod Messages
mod Examples
use blockchain_voting.Base.{
  ℕ, Bool, true, false, ◌||◌, Option, none, some, List, [], ◌∷◌, map, leb, if◌then◌else◌, length,
  Result, ok, ◌>>=◌, Bytes, codes, bytes_eq,
}
use blockchain_voting.Memory.{CharPtr, read_bytes, public_key_size}
use blockchain_voting.Block.{Block, Transaction}
use blockchain_voting.Codec.{
  TransactionMsg, BlockMsg, encode_transaction, decode_block, outlived, encode_block,
}

-- A peer is known by its address; `my_addr` goes along with its GetAddr requests.
pub record SinglePeerClient : Type 0 where
  pub my_addr : Bytes
  pub addr : Bytes

abbrev pub single_peer_client : (my_addr addr : Bytes) → SinglePeerClient
single_peer_client my_addr addr = record { my_addr = my_addr; addr = addr }

abbrev pub peer_addr : SinglePeerClient → Bytes
peer_addr p = p.addr

-- `Client::Client` starts with no peers.
pub record Client : Type 0 where
  pub first_peer : Bytes
  pub my_address : Bytes
  pub peer_clients : List SinglePeerClient

abbrev pub init : Bytes → Bytes → Client
init my_address first_peer = record {
  first_peer = first_peer;
  my_address = my_address;
  peer_clients = [];
}

-- MAX_PEERS
abbrev pub max_peers : ℕ
max_peers = 10

-- NOT_AN_IP_TOKEN
abbrev pub not_an_ip_token : Bytes
not_an_ip_token = codes "dummy"

-- The loop of `addNewPeer`.
unfoldable pub has_peer : Bytes → List SinglePeerClient → Bool
has_peer addr [] = false
has_peer addr (p ∷ ps) = if bytes_eq (peer_addr p) addr then true else has_peer addr ps

unfoldable pub add_new_peer : Client → Bytes → Client
add_new_peer c addr =
    if leb max_peers (length c.peer_clients)
      || bytes_eq addr c.my_address
      || bytes_eq addr not_an_ip_token
    then c
    else (if has_peer addr c.peer_clients
        then c
        else record c { peer_clients = single_peer_client c.my_address addr ∷ c.peer_clients })

-- A loop that calls `push_front` for each element.
unfoldable pub push_fronts : List Bytes → List Bytes → List Bytes
push_fronts [] acc = acc
push_fronts (x ∷ xs) acc = push_fronts xs (x ∷ acc)

unfoldable pub get_peers_list : Client → List Bytes
unfolding push_fronts
get_peers_list c = push_fronts (map peer_addr c.peer_clients) []

-- The peers that a GetAddr call brings back.
abbrev pub Addresses : Type 0
Addresses = SinglePeerClient → List Bytes

-- MAX_SECOND_DEGREE_FROM_PEER
abbrev pub max_second_degree_from_peer : ℕ
max_second_degree_from_peer = 2

-- What gRPC makes of a GetAddr call with its metadata and `num_requested`; `none` is a call that
-- fails.
abbrev pub AddrStub : Type 0
AddrStub = SinglePeerClient → List (Bytes × Bytes) → ℕ → Option (List Bytes)

-- `SinglePeerClient::GetAddr`: the status is not looked at.
unfoldable pub get_addr_from : AddrStub → Addresses
get_addr_from stub p =
    elim (stub p ((codes "address", p.my_addr) ∷ []) max_second_degree_from_peer) [
      | none ↦ []
      | some peers ↦ peers
    ]

-- `SinglePeerClient::GetHeartbeat`, with the status of the call.
unfoldable pub get_heartbeat_from : (SinglePeerClient → Bool) → SinglePeerClient → Bool
get_heartbeat_from status p = status p

-- `checkHeartbeats` and its callback are marked as not implemented.
unfoldable pub check_heartbeats : Client → ℕ
check_heartbeats c = 0

unfoldable pub success_hearbeat : SinglePeerClient → Bool
success_hearbeat p = true

-- The first loop of `bootstrapPeers`.
unfoldable pub ask_peers : Addresses → List SinglePeerClient → List Bytes → List Bytes
unfolding push_fronts
ask_peers get_addr [] new_peers = new_peers
ask_peers get_addr (p ∷ ps) new_peers = ask_peers get_addr ps (push_fronts (get_addr p) new_peers)

-- The second loop, which breaks off once there are enough peers.
unfoldable pub add_new_peers : List Bytes → Client → Client
add_new_peers [] c = c
add_new_peers (a ∷ new_peers) c =
    let rest = add_new_peers new_peers (add_new_peer c a) in
    if leb max_peers (length c.peer_clients) then c else rest

unfoldable pub bootstrap_peers : Addresses → Client → Client × ℕ
bootstrap_peers get_addr c =
    let c1 = add_new_peer c c.first_peer in
    let c2 = add_new_peers (ask_peers get_addr c1.peer_clients []) c1 in
    (c2, length c2.peer_clients)

-- Each call encodes the block anew; its status is not looked at.
unfoldable pub send_block : Block → List SinglePeerClient → Result (List (Bytes × BlockMsg))
send_block b [] = ok []
send_block b (p ∷ ps) = do m ← encode_block b; rest ← send_block b ps; ok ((peer_addr p, m) ∷ rest)

unfoldable pub broadcast_block : Client → Block → Result (List (Bytes × BlockMsg))
unfolding send_block
broadcast_block c b = send_block b c.peer_clients

-- `SinglePeerClient::BroadcastTransaction`: what it sends, and to whom.
abbrev pub send_transaction : Transaction → SinglePeerClient → Bytes × TransactionMsg
send_transaction t p = (peer_addr p, encode_transaction t)

unfoldable pub broadcast_transaction : Client → Transaction → List (Bytes × TransactionMsg)
broadcast_transaction c t = map (send_transaction t) c.peer_clients

-- What a peer answers to a GetBlock call for a hash.
abbrev pub Blocks : Type 0
Blocks = SinglePeerClient → Bytes → Option BlockMsg

-- `SinglePeerClient::GetBlock`. The message is a local variable, destroyed on return.
unfoldable pub get_block_from : Blocks → CharPtr → SinglePeerClient → Result (Option Block)
get_block_from stub block_hash p = do
  request ← read_bytes block_hash public_key_size
  elim (stub p request) [ none ↦ ok none | some m ↦ do b ← decode_block m; ok (some (outlived b)) ]

unfoldable pub ask_for_block : Blocks → CharPtr → List SinglePeerClient → Result (Option Block)
ask_for_block stub block_hash [] = ok none
ask_for_block stub block_hash (p ∷ ps) = do
  block ← get_block_from stub block_hash p
  elim block [ some b ↦ ok (some b) | none ↦ ask_for_block stub block_hash ps ]

unfoldable pub get_block : Blocks → Client → CharPtr → Result (Option Block)
unfolding ask_for_block
get_block stub c block_hash = ask_for_block stub block_hash c.peer_clients
