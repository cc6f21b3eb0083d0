-- ===== src/Server/Running.antt =====
-- server.cpp and server.hpp: the class `MinerServiceImpl` and `RunServer`, over gRPC; and
-- `comm_thread` of peer.cpp.
use blockchain_voting.Server.{Metadata}
use blockchain_voting.Base.{
  none, some, err, null_pointer, Option, List, [], ◌∷◌, Result, ok, ◌>>=◌, Bytes, codes,
}
use blockchain_voting.Client.{Client}
use blockchain_voting.Codec.{TransactionMsg, BlockMsg}
use blockchain_voting.Server.{
  Shared, Status, broadcast_block, broadcast_transaction, get_addr, get_transaction, get_block,
  get_heartbeat,
}

-- The service: `ctap_`, with `client_` in the place of its client.
abbrev pub MinerServiceImpl : Type 0
MinerServiceImpl = Shared

abbrev pub miner_service_impl : Shared → Option Client → MinerServiceImpl
miner_service_impl ctap client = record ctap { client = client }

-- A call of one of the service's methods, with what comes with it, and a response.
pub data Call : Type 0 where
  broadcasts_block : BlockMsg → Call
  broadcasts_transaction : TransactionMsg → Call
  asks_for_addr : (metadata : Metadata) → Call
  asks_for_transaction : Call
  asks_for_block : (block_hash : Bytes) → Call
  asks_for_heartbeat : Call

pub data Response : Type 0 where
  no_response : Response
  addr_response : (peers : List Bytes) → Response
  block_response : Option BlockMsg → Response

abbrev pub Service : Type 0
Service = Shared → Call → Result (Shared × Status × Response)

-- The method that a call is for.
unfoldable pub methods : Service
methods s (broadcasts_block block_msg) = do
  (s', status) ← broadcast_block s block_msg
  ok (s', status, no_response)
methods s (broadcasts_transaction transaction_msg) =
    let (s', status) = broadcast_transaction s transaction_msg in ok (s', status, no_response)
methods s (asks_for_addr metadata) = do
  (s', status, peers) ← get_addr s metadata
  ok (s', status, addr_response peers)
methods s asks_for_transaction = ok (s, get_transaction s, no_response)
methods s (asks_for_block block_hash) = do
  (status, m) ← get_block s block_hash
  ok (s, status, block_response m)
methods s asks_for_heartbeat = ok (s, get_heartbeat s, no_response)

-- What the source uses of gRPC. `build_and_start` gives `NULL` where the server cannot be started,
-- and `wait` comes back when it is shut down; meanwhile it calls the methods of its service.
pub record Grpc : Type 1 where
  pub ServerBuilder : Type 0
  pub Server : Type 0
  pub server_builder : ServerBuilder
  pub add_listening_port : Bytes → ServerBuilder → ServerBuilder
  pub register_service : Service → MinerServiceImpl → ServerBuilder → ServerBuilder
  pub build_and_start : ServerBuilder → Option Server
  pub wait : Server → Result (Unit {0})

abbrev pub server_address : Bytes
server_address = codes "0.0.0.0:50051"

module _ (g : Grpc) where
  open g use {server_builder, add_listening_port, register_service, build_and_start, wait}

  unfoldable pub run_server : Shared → Result (Unit {0})
  run_server ctap =
      let service = miner_service_impl ctap ctap.client in
      let builder =
        register_service methods service (add_listening_port server_address server_builder) in
      elim (build_and_start builder) [ none ↦ err null_pointer | some server ↦ wait server ]

  -- It returns `NULL`.
  unfoldable comm_thread : Shared → Result (Unit {0})
  unfolding run_server
  comm_thread ctap = do s ← run_server ctap; ok s

-- Calls of methods in the order in which they take effect, until one goes wrong.
unfoldable pub serve : Service → List Call → Shared → Result Shared
serve service [] s = ok s
serve service (call ∷ calls) s = do (s', status, response) ← service s call; serve service calls s'
