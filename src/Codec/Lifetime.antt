-- ===== src/Codec/Lifetime.antt =====
-- Who owns the strings of a decoded block: `decode_block` of encoding_helpers.cpp with its
-- pointers, and its two callers, `BroadcastBlock` of server.cpp and `GetBlock` of client.cpp.
pub mod Dangling
mod Examples
use blockchain_voting.Base.{
  ℕ, ◌+◌, Option, none, some, [], ◌∷◌, ◌++◌, ◌==◌, if◌then◌else◌, Result, ok, err, ◌>>=◌, ◌>>◌,
  Bytes,
}
use blockchain_voting.Base.{dangling}
use blockchain_voting.Memory.{CharPtr, buf}
use blockchain_voting.Block.{Block, Slots, new_block}
use blockchain_voting.SyncQueue.{Queue, push}
use blockchain_voting.Codec.{BlockMsg, decode_slots}

-- The strings that are alive, by their address. An address is not given out twice.
pub record Heap : Type 0 where
  pub next : ℕ
  pub cell : ℕ → Option Bytes

abbrev pub update : (ℕ → Option Bytes) → ℕ → Option Bytes → ℕ → Option Bytes
update cell p s q = if q == p then s else cell q

unfoldable pub alloc : Heap → Bytes → Heap × ℕ
alloc h s = (record { next = h.next + 1; cell = update h.cell h.next (some s) }, h.next)

abbrev pub release : ℕ → Heap → Heap
release p h = record h { cell = update h.cell p none }

-- What a `char*` leads to.
unfoldable pub load : Heap → ℕ → Result CharPtr
load h p = elim (h.cell p) [ none ↦ err dangling | some s ↦ ok (buf s) ]

-- A `BlockMsg` in memory: its contents, and where the characters of its strings are.
pub record Message : Type 0 where
  pub contents : BlockMsg
  pub prev_block_sha1 : ℕ
  pub merkle_root : ℕ
  pub verifier_public_key : ℕ
  pub final_hash : ℕ

-- The message and its strings are made, and destroyed, by gRPC or as a local variable.
unfoldable pub new_message : Heap → BlockMsg → Heap × Message
unfolding alloc
new_message h msg =
    let (h1, prev) = alloc h (msg.prev_block_sha1 ++ 0 ∷ []) in
    let (h2, root) = alloc h1 (msg.merkle_root ++ 0 ∷ []) in
    let (h3, verifier) = alloc h2 (msg.verifier_public_key ++ 0 ∷ []) in
    let (h4, final) = alloc h3 (msg.final_hash ++ 0 ∷ []) in
    (
      h4,
      record {
        contents = msg;
        prev_block_sha1 = prev;
        merkle_root = root;
        verifier_public_key = verifier;
        final_hash = final;
      },
    )

unfoldable pub delete_message : Message → Heap → Heap
delete_message m h =
    release m.final_hash
      (release m.verifier_public_key (release m.merkle_root (release m.prev_block_sha1 h)))

-- A `block` whose four `char*` are addresses.
pub record BlockObject : Type 0 where
  pub block_number : Option ℕ
  pub prev_block_sha1 : ℕ
  pub magic : ℕ
  pub merkle_root : ℕ
  pub transaction_array : Slots
  pub max_ind : ℕ
  pub verifier_public_key : ℕ
  pub finhash : ℕ

-- `decode_block`: the transactions are copied, the pointers lead into the message.
unfoldable pub decode_block_object : Message → Result BlockObject
decode_block_object m = do
  slots ← decode_slots 0 m.contents.transaction_msg new_block.transaction_array
  ok (record {
    block_number = some m.contents.block_number;
    prev_block_sha1 = m.prev_block_sha1;
    magic = m.contents.magic;
    merkle_root = m.merkle_root;
    transaction_array = slots;
    max_ind = m.contents.num_transactions;
    verifier_public_key = m.verifier_public_key;
    finhash = m.final_hash;
  })

-- The block that an object stands for, read through its pointers.
unfoldable pub view : Heap → BlockObject → Result Block
unfolding load
view h o = do
  prev_block_sha1 ← load h o.prev_block_sha1
  merkle_root ← load h o.merkle_root
  verifier_public_key ← load h o.verifier_public_key
  finhash ← load h o.finhash
  ok (record {
    block_number = o.block_number;
    prev_block_sha1 = prev_block_sha1;
    magic = o.magic;
    merkle_root = merkle_root;
    transaction_array = o.transaction_array;
    max_ind = o.max_ind;
    verifier_public_key = verifier_public_key;
    finhash = finhash;
  })

-- `MinerServiceImpl::BroadcastBlock`: the message lives as long as the call.
unfoldable pub receive_block :
    Heap → Queue BlockObject → BlockMsg → Result (Heap × Queue BlockObject)
unfolding new_message delete_message
receive_block h bq msg = do
  let called = new_message h msg
  block ← decode_block_object called.1
  ok (delete_message called.1 called.0, push bq block)

-- `SinglePeerClient::GetBlock` with the peer's answer: `blockmsg` is a local variable.
unfoldable pub fetch_block : Heap → Option BlockMsg → Result (Heap × Option BlockObject)
unfolding new_message delete_message
fetch_block h none = ok (h, none)
fetch_block h (some msg) = do
  let local = new_message h msg
  block ← decode_block_object local.1
  ok (delete_message local.1 local.0, some block)
