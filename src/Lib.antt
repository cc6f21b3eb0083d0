-- ===== src/Lib.antt =====
-- The voting blockchain: what its C++ code does, and what is proved of it.
--
-- A node runs two threads (peer.cpp). The communications thread (server.cpp) answers gRPC calls: it
-- decodes the blocks and transactions it is sent (encoding_helpers.cpp) onto synchronized queues, and
-- answers with peers and blocks. The processing thread takes blocks from its queue into the
-- blockchain, mends the chain against a longer one, gathers eight transactions in a working block and
-- looks for a `magic` under which the block's hash meets the target (processor.cpp), and sends what it
-- accepts and mines to the peers it knows (client.cpp). A voter casts a vote with a program of its own
-- (voting-booth.cpp), which sends one transaction to the peers.
--
-- Which file models what:
--   Base: numbers, lists, byte strings, and `Result` for a run of C++ code, whose errors are undefined
--     behaviour (`null_pointer`, `out_of_bounds`, `uninitialised`, `dangling`), a failed `assert`, and a
--     loop out of its rounds (`out_of_fuel`).
--   Memory: a `char*` as NULL, the bytes from it to the end of its buffer, or a pointer into memory
--     that has been freed; `same_hash` (processor.cpp).
--   SyncQueue: `synchronized_queue` (processor.cpp), each method one step; `pop` on an empty queue is
--     `none`, the thread that waits. SyncQueue/Threads has the methods that lock line by line, for any
--     number of threads, over pthread's mutex and condition variable as a parameter.
--   Hash: `leading_zeros` and the mining target (peer.cpp).
--   Block: `transaction`, `block` and its constructor (processor.hpp, processor.cpp). A member that the
--     constructor leaves unwritten is an `Option`.
--   Merkle, Finhash: `block::calculate_merkle_root` and `block::calculate_finhash` (processor.cpp),
--     over OpenSSL's `SHA1` as a parameter, of which only the digest's length is assumed (`IsSha1`).
--   Blockchain: `blockchain` (processor.cpp): lookups, validity, adding; the set of voters is its
--     characteristic function. Blockchain/Repair is `repair_blockchain`. Blockchain/Tally is what a
--     count of the votes sees of the chain: a ballot box, the votes without their order.
--   Codec: encoding_helpers.cpp, with the messages of protos/node.proto as records.
--     Codec/Lifetime is `decode_block` once more, with its pointers into the message, and its two
--     callers, over a heap of strings that come to an end.
--   Client: `Client` and `SinglePeerClient` (client.cpp). What the peers answer is a parameter; what is
--     sent to them is a result.
--   Server: the handlers of server.cpp, on the objects that the threads share. Server/Joining is two
--     nodes, one of which asks the other for peers. Server/Running is `MinerServiceImpl` and
--     `RunServer`, over gRPC as a parameter, and `comm_thread` of peer.cpp.
--   Miner: `processing_thread` (peer.cpp), a round in two halves, before and after `if (docontinue)`.
--     Miner/System is the system of both threads: a step is one half of a round or one handler, in any
--     order. Miner/Ledger is what a voter may know of it, a ledger of ballots. Miner/Loop is the
--     `while(true)`, one round after the other; Miner/Liveness and Miner/Election are about rounds
--     that mine, Miner/Counting about the votes that they put in the ballot box, and Miner/Waiting
--     about runs in which the thread waits. Miner/Delivery follows a block to another node, and
--     Miner/Serving takes calls of the service to steps of the system. Miner/Genuine says which
--     transactions may stand where at a node, Miner/Bare what a node does with blocks that came
--     without transactions. Miner/Atomicity has the second half of a round in small steps, with
--     messages that arrive in between.
--   Peer: `main` of peer.cpp, up to the start of the threads.
--   Rsa: rsa.cpp, over OpenSSL's operations and the files as parameters; the files, keys and BIOs that
--     nothing closes or frees are counted. Nothing calls it. Rsa/Loading is about where its keys come
--     from.
--   Booth: `main` of voting-booth.cpp, which casts one vote, over the bytes of files and the clock.
--     Booth/Election is eight voters at their booths, the node that their votes get to, and its chain.
--   Network: any number of such nodes and of booths. A step is a run of a booth or a step of a node; a
--     node may receive, at any time and more than once, what a node or a booth has sent to anybody.
--     Network/Runs has the rounds of one node, and the booths of its voters, as runs of a network;
--     Blockchain/Ballots compares the votes in a chain with those that were cast.
--   Samples, Miner/Samples: data for the tests, which stand in the modules named Examples.
--
-- Sizes and rounds. `magic` wraps at 2 ^ 64; a count of blocks or of slots is a natural number, since
-- the code stops at block 5 and has 8 slots, and `max_ind` as an array bound is read as an int of 32
-- bits (`rounds`). The loop of `calculate_merkle_root` gets `num_transactions_per_block` rounds, of
-- which three are used; the loop over `peerq` as many as the queue has elements, each of which takes
-- one out; the mining loop its 1024 rounds. The search of `repair_blockchain` for a common ancestor
-- does not end by itself: its fuel and what its uninitialised variable holds are parameters, and the
-- theorems hold for each fuel and each content.
--
-- How C++ is read. A hash that is passed on is a copy of the bytes, as no buffer is written after it
-- is filled. The four `char*` of a block that was received point into its message: while the
-- handler or `GetBlock` runs they are bytes, and what these leave behind has them freed
-- (`outlived`), which is derived for the pointers themselves in Codec/Lifetime. The first block's
-- hash is the buffer of 15 bytes with the 13 of the name and any two behind them. A value that
-- comes with a call is a pointer, since nothing promises a NUL behind its characters. The cast of
-- the `std::string` key to `unsigned char*` in `calculate_merkle_root` is read as the key's
-- characters. `magic` is hashed lowest byte first. `timestamp` is the bit pattern of a double. A
-- handler is one step of the system, and a half of a round is another: that messages arrive
-- inside a second half is in Miner/Atomicity; that they arrive inside a first half, that
-- `GetAddr` comes inside a half, and races on one object are left out. gRPC may serve calls at
-- the same time; the model takes each handler as one step, in the order in which they take
-- effect. Of gRPC itself nothing is assumed.
--
-- Not modelled: logging; `delete`, and the lifetime of objects other than the messages of Codec/Lifetime
-- and the keys of Rsa; gRPC and the code generated from protos/node.proto; the members that are
-- declared but never defined.
pub mod Base
pub mod Memory
pub mod SyncQueue
pub mod Hash
pub mod Block
pub mod Merkle
pub mod Finhash
pub mod Blockchain
pub mod Codec
pub mod Client
pub mod Server
pub mod Miner
pub mod Peer
pub mod Booth
pub mod Rsa
pub mod Samples
pub mod Network
