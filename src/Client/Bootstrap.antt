-- ===== src/Client/Bootstrap.antt =====
-- `bootstrapPeers` of client.cpp: which peers a round of questions brings in.
use blockchain_voting.Base.{
  ◌≤◌, ◌<◌, ◌≡◌, refl, inl, inr, Bool, true, false, ◌||◌, List, [], ◌∷◌, arith, leb, Bool-cases,
  length, Bytes, bytes_eq, eq_of_bytes_eq, mem,
}
use blockchain_voting.Client.{
  SinglePeerClient, Client, Addresses, max_peers, not_an_ip_token, has_peer, add_new_peer,
  push_fronts, ask_peers, add_new_peers, bootstrap_peers,
}
use blockchain_voting.Client.Network.{
  IsNetwork, add_new_peer-IsNetwork, has_peer-add_new_peer, add_new_peer-keeps,
}

add_new_peers-IsNetwork :
    (new_peers : List Bytes) (c : Client) → IsNetwork c → IsNetwork (add_new_peers new_peers c)
unfolding add_new_peers
add_new_peers-IsNetwork [] c v = v
add_new_peers-IsNetwork (a ∷ new_peers) c v =
    elim (Bool-cases (leb max_peers (length c.peer_clients))) [
      | inl e ↦ rw e v
      | inr e ↦
          rw e (add_new_peers-IsNetwork new_peers (add_new_peer c a) (add_new_peer-IsNetwork c a v))
    ]

add_new_peers_keeps :
    (new_peers : List Bytes) (c : Client) (j : Bytes)
    → has_peer j c.peer_clients ≡ true
    → has_peer j (add_new_peers new_peers c).peer_clients ≡ true
unfolding add_new_peers
add_new_peers_keeps [] c j h = h
add_new_peers_keeps (a ∷ new_peers) c j h =
    ground (arith, add_new_peers_keeps new_peers (add_new_peer c a) j, has_peer-add_new_peer c a j)

add_new_peers_sound :
    (new_peers : List Bytes) (c : Client) (j : Bytes)
    → has_peer j (add_new_peers new_peers c).peer_clients ≡ true
    → (has_peer j c.peer_clients || mem j new_peers) ≡ true
unfolding add_new_peers
add_new_peers_sound [] c j h = ground arith
add_new_peers_sound (a ∷ new_peers) c j h =
    ground (arith, add_new_peers_sound new_peers (add_new_peer c a) j, has_peer-add_new_peer c a j)

module _ (j : Bytes) where
  add_new_peers_complete :
      (new_peers : List Bytes) (c : Client)
      → mem j new_peers ≡ true
      → length (add_new_peers new_peers c).peer_clients < max_peers
      → bytes_eq j c.my_address ≡ false
      → bytes_eq j not_an_ip_token ≡ false
      → has_peer j (add_new_peers new_peers c).peer_clients ≡ true
  unfolding add_new_peers
  add_new_peers_complete [] c h room self token = cc
  add_new_peers_complete (a ∷ new_peers) c h room self token =
      elim (Bool-cases (leb max_peers (length c.peer_clients))) [
        | inl e ↦ absurd (ground arith)
        | inr e ↦ rw e (elim (Bool-cases (bytes_eq a j)) [
          | inl here ↦
              let same = eq_of_bytes_eq a j here in
              add_new_peers_keeps new_peers (add_new_peer c a) j
                (ground (arith, has_peer-add_new_peer c a j))
          | inr there ↦
              add_new_peers_complete new_peers (add_new_peer c a) (ground arith) (ground arith)
                (rw (add_new_peer-keeps c a).0 self) token
        ])
      ]

-- Whether a peer answers with the address.
abbrev pub told : Addresses → Bytes → List SinglePeerClient → Bool
told get_addr j [] = false
told get_addr j (p ∷ ps) = mem j (get_addr p) || told get_addr j ps

pub mem-push_fronts :
    (j : Bytes) (xs acc : List Bytes) → mem j (push_fronts xs acc) ≡ (mem j xs || mem j acc)
unfolding push_fronts
mem-push_fronts j [] acc = refl
mem-push_fronts j (x ∷ xs) acc = ground (arith, mem-push_fronts j xs (x ∷ acc))

mem-ask_peers :
    (get_addr : Addresses) (j : Bytes) (ps : List SinglePeerClient) (acc : List Bytes)
    → mem j (ask_peers get_addr ps acc) ≡ (told get_addr j ps || mem j acc)
unfolding ask_peers
mem-ask_peers get_addr j [] acc = refl
mem-ask_peers get_addr j (p ∷ ps) acc = ground (
  arith,
  mem-ask_peers get_addr j ps (push_fronts (get_addr p) acc),
  mem-push_fronts j (get_addr p) acc,
)

module _ (get_addr : Addresses) (c : Client) where
  -- The peers that the questions go to.
  abbrev pub asked : List SinglePeerClient
  asked = (add_new_peer c c.first_peer).peer_clients

  -- The peers that it asks stay.
  pub bootstrap_peers-asked :
      (j : Bytes)
      → has_peer j asked ≡ true
      → has_peer j (bootstrap_peers get_addr c).0.peer_clients ≡ true
  unfolding bootstrap_peers
  bootstrap_peers-asked j h =
      add_new_peers_keeps (ask_peers get_addr asked []) (add_new_peer c c.first_peer) j h

  -- `bootstrapPeers` loses no peer.
  pub bootstrap_peers_keeps :
      (j : Bytes)
      → has_peer j c.peer_clients ≡ true
      → has_peer j (bootstrap_peers get_addr c).0.peer_clients ≡ true
  bootstrap_peers_keeps j h =
      bootstrap_peers-asked j (ground (arith, has_peer-add_new_peer c c.first_peer j))

  -- `bootstrapPeers` keeps the network well formed, and returns the number of peers, at most 10.
  pub bootstrap_peers-IsNetwork :
      IsNetwork c
      → IsNetwork (bootstrap_peers get_addr c).0
        × ((bootstrap_peers get_addr c).1 ≡ length (bootstrap_peers get_addr c).0.peer_clients)
        × ((bootstrap_peers get_addr c).1 ≤ max_peers)
  unfolding bootstrap_peers
  bootstrap_peers-IsNetwork v =
      let w =
        add_new_peers-IsNetwork (ask_peers get_addr asked []) (add_new_peer c c.first_peer)
          (add_new_peer-IsNetwork c c.first_peer v) in
      (w, refl, w.bounded)

  -- Every peer that it leaves was a peer before, or is `first_peer_`, or was told by a peer asked.
  pub bootstrap_peers_sound :
      (j : Bytes)
      → has_peer j (bootstrap_peers get_addr c).0.peer_clients ≡ true
      → (has_peer j c.peer_clients || bytes_eq c.first_peer j || told get_addr j asked) ≡ true
  unfolding bootstrap_peers
  bootstrap_peers_sound j h = ground (
    arith,
    add_new_peers_sound (ask_peers get_addr asked []) (add_new_peer c c.first_peer) j h,
    mem-ask_peers get_addr j asked [],
    has_peer-add_new_peer c c.first_peer j,
  )

  -- Unless the network is full, every address that a peer asked tells is a peer afterwards, but for
  -- the node's own and the token.
  pub bootstrap_peers_complete :
      (j : Bytes)
      → told get_addr j asked ≡ true
      → (bootstrap_peers get_addr c).1 < max_peers
      → bytes_eq j c.my_address ≡ false
      → bytes_eq j not_an_ip_token ≡ false
      → has_peer j (bootstrap_peers get_addr c).0.peer_clients ≡ true
  unfolding bootstrap_peers
  bootstrap_peers_complete j h room self token =
      add_new_peers_complete j (ask_peers get_addr asked []) (add_new_peer c c.first_peer)
        (ground (arith, mem-ask_peers get_addr j asked [])) room
        (rw (add_new_peer-keeps c c.first_peer).0 self) token
