-- ===== src/Server/Handlers.antt =====
-- What the handlers of server.cpp answer, and what they leave in the shared state.
use blockchain_voting.Memory.{CharPtr, c_string}
use blockchain_voting.Server.{Metadata}
use blockchain_voting.Blockchain.{TwoBytes}
use blockchain_voting.Base.{
  ◌∙◌, ◌≡◌, ap₂, ◌&&◌, ◌||◌, some, [], ◌∷◌, ◌++◌, arith, length, length-append, ok, err,
  null_pointer, Bytes, codes, bytes_eq,
}
use blockchain_voting.Memory.{buf, public_key_size}
use blockchain_voting.Block.{Block}
use blockchain_voting.Blockchain.{Blockchain, add_block, get_head_block, starting_block}
use blockchain_voting.Blockchain.Lookup.{get_block-add_block as add_block_found}
use blockchain_voting.Codec.{BlockMsg, encode_block}
use blockchain_voting.Codec.Mined.{encode_block-starting_block}
use blockchain_voting.Client.{Client, add_new_peer, get_peers_list, has_peer}
use blockchain_voting.Client.Network.{
  IsNetwork, add_new_peer-IsNetwork, has_peer-add_new_peer, admits,
}
use blockchain_voting.Server.{Shared, status_ok, find_metadata, answer_addr, get_addr, get_block}

-- A GetAddr call answers with the peers of before the call, and then takes the caller's address in,
-- if its characters end with a NUL and the network admits it: the network stays well formed and
-- loses no peer.
pub get_addr-IsNetwork :
    (s : Shared) (metadata : Metadata) (value : CharPtr) (addr : Bytes) (c : Client)
    → find_metadata (codes "address") metadata ≡ some value
    → c_string value ≡ ok addr
    → s.client ≡ some c
    → IsNetwork c
    → (c' : Client) × (get_addr s metadata
        ≡ ok (record s { client = some c' }, status_ok, get_peers_list c))
      × IsNetwork c'
      × ((j : Bytes)
          → has_peer j c'.peer_clients
            ≡ (has_peer j c.peer_clients || (bytes_eq addr j && admits c addr)))
unfolding get_addr answer_addr
get_addr-IsNetwork s metadata value addr c found whole there v = (
  add_new_peer c addr,
  ap₂ (answer_addr s) there found ∙ rw whole,
  add_new_peer-IsNetwork c addr v,
  λ j. has_peer-add_new_peer c addr j,
)

-- A GetBlock call answers, with the block's message, for the hash of the block added last (a hash
-- of 20 bytes) and for the empty hash, if that block can be encoded.
pub get_block_of_head :
    (s : Shared) (c : Blockchain) (b b' : Block) (hash : Bytes) (m : BlockMsg)
    → add_block c b ≡ ok (s.bc, b')
    → b.finhash ≡ buf (hash ++ 0 ∷ [])
    → length hash ≡ public_key_size
    → encode_block b' ≡ ok m
    → (get_block s hash ≡ ok (status_ok, some m)) × (get_block s [] ≡ ok (status_ok, some m))
unfolding get_block
get_block_of_head s c b b' hash m added fin len sent =
    let (found, _, head) =
      add_block_found c s.bc b b' (hash ++ 0 ∷ []) added fin
        (omega (arith, length-append hash (0 ∷ []))) in
    (rw (len, found, sent), rw (head, sent))

-- While the chain is only its first block, the call for the head block goes wrong.
pub get_block_of_start :
    (s : Shared) (rest : TwoBytes)
    → get_head_block s.bc ≡ ok (starting_block rest)
    → get_block s [] ≡ err null_pointer
unfolding get_block
get_block_of_start s rest head = rw (head, encode_block-starting_block)
