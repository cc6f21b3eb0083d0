-- ===== src/Server/Examples.antt =====
-- A node that is asked for its peers and its head block.
use blockchain_voting.Base.{true, arith, ◌≡◌, refl, some, [], ◌∷◌, ◌++◌, map, ok, codes, bytes_eq}
use blockchain_voting.Memory.{CharPtr, buf, c_string, read_bytes, read_prefix}
use blockchain_voting.Block.{Block, read_slots}
use blockchain_voting.Samples.{votes, hash, full_block}
use blockchain_voting.Blockchain
use blockchain_voting.Blockchain.{Blockchain, starting_block, add_block}
use blockchain_voting.Blockchain.Adding.{added, numbered}
use blockchain_voting.Codec.{BlockMsg, encode_block, encode_transaction}
use blockchain_voting.Client
use blockchain_voting.Client.{
  Client, AddrStub, SinglePeerClient, has_peer, get_peers_list, get_addr_from, bootstrap_peers,
  add_new_peer, add_new_peers, ask_peers, max_peers,
}
use blockchain_voting.Client.{Blocks}
use blockchain_voting.Server.Joining.{link, arrived, bootstrap_peers-get_addr}
use blockchain_voting.Client.Network.{IsNetwork}
use blockchain_voting.Server.{Shared, status_ok, get_addr}

abbrev first_chain : Blockchain
first_chain = Blockchain.init (0, 0)

abbrev head_block : Block
head_block = record (full_block 8 (hash 4) (hash 5)) {
  finhash = buf (hash 5 ++ 0 ∷ []);
  verifier_public_key = buf (0 ∷ []);
}

abbrev client : Client
client = Client.init (codes "1.1.1.1") (codes "2.2.2.2")

abbrev state : Shared
state = record {
  tq = [];
  bq = [];
  peerq = [];
  bc = added first_chain head_block (votes 8 8);
  client = some client;
}

abbrev head_msg : BlockMsg
head_msg = record {
  block_number = 2;
  prev_block_sha1 = hash 4;
  magic = 0;
  merkle_root = hash 9;
  transaction_msg = map encode_transaction (votes 8 8);
  num_transactions = 8;
  verifier_public_key = [];
  final_hash = hash 5;
}

head_encodes : encode_block (numbered first_chain head_block) ≡ ok head_msg
unfolding encode_block c_string read_bytes read_prefix read_slots
head_encodes = refl

-- A node that has one peer, and a new node that knows of it.
abbrev knowing : Client
knowing = record client { peer_clients = link (codes "1.1.1.1") (codes "5.5.5.5") ∷ [] }

knowing-IsNetwork : IsNetwork knowing
unfolding has_peer bytes_eq
knowing-IsNetwork = record {
  bounded = omega arith;
  not_self = refl;
  not_token = refl;
  distinct = (refl, tt);
}

abbrev answers : AddrStub
answers p metadata n = some (get_peers_list knowing)

abbrev address : CharPtr
address = buf (codes "3.3.3.3" ++ 0 ∷ 77 ∷ [])

bootstrap_peers-get_addr_example :
    (server' : Client) × (get_addr (record state { client = some knowing }) (arrived address)
      ≡ ok (record state { client = some server' }, status_ok, get_peers_list knowing))
    × (has_peer (codes "3.3.3.3") server'.peer_clients ≡ true)
    × (has_peer
          (codes "1.1.1.1")
          (bootstrap_peers
            (get_addr_from answers)
            (Client.init (codes "3.3.3.3") (codes "1.1.1.1"))).0.peer_clients
        ≡ true)
    × (has_peer
          (codes "5.5.5.5")
          (bootstrap_peers
            (get_addr_from answers)
            (Client.init (codes "3.3.3.3") (codes "1.1.1.1"))).0.peer_clients
        ≡ true)
unfolding has_peer bytes_eq bootstrap_peers add_new_peer add_new_peers ask_peers get_addr_from
    get_peers_list c_string
bootstrap_peers-get_addr_example =
    bootstrap_peers-get_addr answers (record state { client = some knowing }) knowing
      (codes "3.3.3.3") (codes "1.1.1.1") (codes "5.5.5.5") address refl refl knowing-IsNetwork refl
      refl refl refl refl refl refl (omega arith)
