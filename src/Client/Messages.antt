-- ===== src/Client/Messages.antt =====
-- What a broadcast of client.cpp sends.
use blockchain_voting.Base.{
  ◌≡◌, refl, ◌∙◌, inl, inr, List, [], ◌∷◌, ◌++◌, map, append-nil, append_assoc, Result-cases,
  Result, ok, ◌>>=◌, Bytes,
}
use mathlib.Core.List.{reverse, reverse-cons}
use blockchain_voting.Block.{Block}
use blockchain_voting.Codec.{BlockMsg, encode_block}
use blockchain_voting.Client.{
  SinglePeerClient, Client, push_fronts, get_peers_list, send_block, broadcast_block,
}

push_fronts-reverse : (xs acc : List Bytes) → push_fronts xs acc ≡ reverse xs ++ acc
unfolding push_fronts
push_fronts-reverse [] acc = refl
push_fronts-reverse (x ∷ xs) acc =
    rw (reverse-cons x xs, append_assoc) (push_fronts-reverse xs (x ∷ acc))

-- `getPeersList` gives the peers' addresses, the one added last at the end.
pub get_peers_list-reverse :
    (c : Client) → get_peers_list c ≡ reverse (map (λ p. p.addr) c.peer_clients)
unfolding get_peers_list
get_peers_list-reverse c = push_fronts-reverse (map (λ p. p.addr) c.peer_clients) [] ∙ append-nil _

send_block-ok :
    (b : Block) (m : BlockMsg) (ps : List SinglePeerClient)
    → encode_block b ≡ ok m
    → send_block b ps ≡ ok (map (λ p. (p.addr, m)) ps)
unfolding send_block
send_block-ok b m [] e = refl
send_block-ok b m (p ∷ ps) e = rw (e, send_block-ok b m ps e)

-- One message for every peer; without a peer nothing is encoded.
abbrev pub to_each : Result BlockMsg → List SinglePeerClient → Result (List (Bytes × BlockMsg))
to_each encoded [] = ok []
to_each encoded (p ∷ ps) = encoded >>= λ m. ok (map (λ q. (q.addr, m)) (p ∷ ps))

send_block-eq :
    (b : Block) (ps : List SinglePeerClient) → send_block b ps ≡ to_each (encode_block b) ps
unfolding send_block
send_block-eq b [] = refl
send_block-eq b (p ∷ ps) = elim (Result-cases (encode_block b)) [
  | inl (m, h) ↦ send_block-ok b m (p ∷ ps) h ∙ rw h refl
  | inr (e, h) ↦ rw h refl
]

-- A broadcast sends one message to each peer, in order and the same to all; it goes wrong where the
-- block cannot be encoded, unless there is no peer.
pub broadcast_block-eq :
    (c : Client) (b : Block) → broadcast_block c b ≡ to_each (encode_block b) c.peer_clients
unfolding broadcast_block
broadcast_block-eq c b = send_block-eq b c.peer_clients
