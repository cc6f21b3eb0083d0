-- ===== src/Server.antt =====
-- server.cpp: the handlers of the gRPC service, over what the communications thread shares with the
-- processing thread. A handler runs as one step.
pub mod Handlers
pub mod Joining
pub mod Running
mod Examples
use blockchain_voting.Base.{
  Option, none, some, List, [], ◌∷◌, ◌==◌, if◌then◌else◌, length, Result, ok, err, out_of_bounds,
  ◌>>=◌, Bytes, codes, bytes_eq,
}
use blockchain_voting.Memory.{CharPtr, c_string}
use blockchain_voting.Block.{Block, Transaction}
use blockchain_voting.SyncQueue.{Queue, push}
use blockchain_voting.Blockchain.{Blockchain, get_head_block, get_block_by_hash}
use blockchain_voting.Codec.{
  TransactionMsg, BlockMsg, decode_transaction, decode_block, outlived, encode_block, c_str,
}
use blockchain_voting.Client.{Client, add_new_peer, get_peers_list}

-- `comm_thread_args` of peer.hpp, which points to the same objects as `processing_thread_args`.
-- `none` is a client that is `NULL`.
pub record Shared : Type 0 where
  pub tq : Queue Transaction
  pub bq : Queue Block
  pub peerq : Queue Bytes
  pub bc : Blockchain
  pub client : Option Client

pub data Status : Type 0 where
  status_ok cancelled : Status

-- `Status::OK` after the push; the queue is shared. The message is destroyed when the handler
-- returns.
unfoldable pub broadcast_block : Shared → BlockMsg → Result (Shared × Status)
broadcast_block s block_msg = do
  block ← decode_block block_msg
  ok (record s { bq = push s.bq (outlived block) }, status_ok)

unfoldable pub broadcast_transaction : Shared → TransactionMsg → Shared × Status
broadcast_transaction s transaction_msg =
    (record s { tq = push s.tq (decode_transaction transaction_msg) }, status_ok)

-- What comes with a call. A value is a `string_ref`: its `data()` is a pointer to characters that
-- nothing promises a NUL behind.
abbrev pub Metadata : Type 0
Metadata = List (Bytes × CharPtr)

-- `client_metadata().find(key)`; `none` is `end()`.
unfoldable pub find_metadata : Bytes → Metadata → Option CharPtr
find_metadata key [] = none
find_metadata key ((k, v) ∷ metadata) =
    if bytes_eq k key then some v else find_metadata key metadata

-- `GetAddr` with its client and the caller's address; the third component is the response. The
-- `it->second` of `end()` is out of bounds; `addr` is made of the characters up to a NUL.
unfoldable pub answer_addr :
    Shared → Option Client → Option CharPtr → Result (Shared × Status × List Bytes)
answer_addr s none it = ok (s, cancelled, [])
answer_addr s (some client) none = err out_of_bounds
answer_addr s (some client) (some value) = do
  addr ← c_string value
  ok (record s { client = some (add_new_peer client addr) }, status_ok, get_peers_list client)

unfoldable pub get_addr : Shared → Metadata → Result (Shared × Status × List Bytes)
unfolding answer_addr
get_addr s metadata = answer_addr s s.client (find_metadata (codes "address") metadata)

unfoldable pub get_transaction : Shared → Status
get_transaction s = cancelled

-- The message is the response, where the status is OK.
unfoldable pub get_block : Shared → Bytes → Result (Status × Option BlockMsg)
get_block s block_hash =
    if length block_hash == 0
    then (do head ← get_head_block s.bc; m ← encode_block head; ok (status_ok, some m))
    else do
      block ← get_block_by_hash s.bc (c_str block_hash)
      elim block [
        | none ↦ ok (cancelled, none)
        | some b ↦ do m ← encode_block b; ok (status_ok, some m)
      ]

unfoldable pub get_heartbeat : Shared → Status
get_heartbeat s = status_ok
