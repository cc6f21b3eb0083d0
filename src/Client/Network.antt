-- ===== src/Client/Network.antt =====
-- `addNewPeer` of client.cpp: which addresses become peers.
use blockchain_voting.Base.{
  ◌≤◌, ◌≡◌, refl, Bool, true, false, not, ◌&&◌, ◌||◌, List, [], ◌∷◌, arith, ltb, length, Bytes,
  bytes_eq, bytes_eq_refl, eq_of_bytes_eq,
}
use blockchain_voting.Client.{
  SinglePeerClient, Client, max_peers, not_an_ip_token, has_peer, add_new_peer, init,
}

-- No address occurs twice.
abbrev pub Distinct : List SinglePeerClient → Type 0
Distinct [] = Unit {0}
Distinct (p ∷ ps) = (has_peer p.addr ps ≡ false) × Distinct ps

-- What the comment of `addNewPeer` promises: a limit on the peers, none of them the node itself or
-- the token that is no address, and no address twice.
pub record IsNetwork (c : Client) : Type 0 where
  pub bounded : length c.peer_clients ≤ max_peers
  pub not_self : has_peer c.my_address c.peer_clients ≡ false
  pub not_token : has_peer not_an_ip_token c.peer_clients ≡ false
  pub distinct : Distinct c.peer_clients

pub init-IsNetwork : (my_address first_peer : Bytes) → IsNetwork (init my_address first_peer)
unfolding has_peer
init-IsNetwork my_address first_peer = record {
  bounded = omega arith;
  not_self = refl;
  not_token = refl;
  distinct = tt;
}

-- `addNewPeer` keeps the peers bounded, distinct, and free of the node itself and the token.
pub add_new_peer-IsNetwork :
    (c : Client) (addr : Bytes) → IsNetwork c → IsNetwork (add_new_peer c addr)
unfolding add_new_peer has_peer
add_new_peer-IsNetwork c addr v = ground arith

-- Whether the address may be taken in.
abbrev pub admits : Client → Bytes → Bool
admits c addr =
    ltb (length c.peer_clients) max_peers
    && not (bytes_eq addr c.my_address)
    && not (bytes_eq addr not_an_ip_token)

has_peer-congr :
    (a b : Bytes) (ps : List SinglePeerClient) → bytes_eq a b ≡ true → has_peer a ps ≡ has_peer b ps
has_peer-congr a b ps h = rw (eq_of_bytes_eq a b h)

-- After `addNewPeer` the peers are those of before, and the address if there is room for it and it
-- is neither the node's own nor the token.
pub has_peer-add_new_peer :
    (c : Client) (addr j : Bytes)
    → has_peer j (add_new_peer c addr).peer_clients
      ≡ (has_peer j c.peer_clients || (bytes_eq addr j && admits c addr))
unfolding add_new_peer has_peer
has_peer-add_new_peer c addr j = ground (arith, has_peer-congr addr j c.peer_clients)

-- A second call with the same address changes nothing.
pub add_new_peer_twice :
    (c : Client) (addr : Bytes) → add_new_peer (add_new_peer c addr) addr ≡ add_new_peer c addr
unfolding add_new_peer has_peer
add_new_peer_twice c addr = ground (arith, bytes_eq_refl addr)

pub add_new_peer-keeps :
    (c : Client) (addr : Bytes)
    → ((add_new_peer c addr).my_address ≡ c.my_address)
      × ((add_new_peer c addr).first_peer ≡ c.first_peer)
unfolding add_new_peer
add_new_peer-keeps c addr = ground arith
