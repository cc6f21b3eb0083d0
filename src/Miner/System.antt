-- ===== src/Miner/System.antt =====
-- The threads of peer.cpp: the processing thread between the two halves of its rounds, and the
-- handlers of server.cpp, one step after the other in any order.
use blockchain_voting.Server.{Metadata}
use blockchain_voting.Blockchain.{TwoBytes}
use blockchain_voting.Base.{
  ℕ, zero, suc, ◌≡◌, sym, ap, ◌∙◌, true, false, Option, none, some, List, [], ◌∷◌, arith, length,
  All, ok, >>=-eq-ok, ok-injective, Bytes,
}
use blockchain_voting.Block.{Block, Transaction, Slots, new_block, write_slot}
use blockchain_voting.SyncQueue.{Queue, push}
use blockchain_voting.Blockchain
use blockchain_voting.Blockchain.{Blockchain}
use blockchain_voting.Blockchain.Validity.{init-IsConsistent}
use blockchain_voting.Codec.{
  TransactionMsg, BlockMsg, decode_transaction, decode_slots, decode_block,
}
use blockchain_voting.Client
use blockchain_voting.Client.{Addresses, bootstrap_peers, add_new_peer}
use blockchain_voting.Client.Network.{init-IsNetwork}
use blockchain_voting.Client.Bootstrap.{bootstrap_peers-IsNetwork}
use blockchain_voting.Server
use blockchain_voting.Server.{Shared, Status}
use blockchain_voting.Miner.{Miner, Environment, first_half, second_half}
use blockchain_voting.Miner.Invariant.{Inv, HasSlots, new_block-IsWorking}

-- `processing_thread` before its loop: two calls of `bootstrapPeers`. `rest` is what lies behind
-- the name in the first block's hash.
abbrev pub start :
    (first second : Addresses) (rest : TwoBytes) (my_address first_peer : Bytes) → Miner
start first second rest my_address first_peer = record {
  tq = [];
  bq = [];
  peerq = [];
  bc = Blockchain.init rest;
  client = (bootstrap_peers second (bootstrap_peers first (Client.init my_address first_peer)).0).0;
  quotafull = false;
  working_block = new_block;
  loop_counter = 0;
  sent = [];
}

-- The processing thread stands at the top of its loop, or before `tq->pop()`.
pub data Pc : Type 0 where
  at_top at_pop : Pc

pub record Node : Type 0 where
  pub pc : Pc
  pub miner : Miner

abbrev pub node : Pc → Miner → Node
node pc m = record { pc = pc; miner = m }

-- What the handlers see of a miner, and the miner after one of them.
abbrev pub shared : Miner → Shared
shared m = record { tq = m.tq; bq = m.bq; peerq = m.peerq; bc = m.bc; client = some m.client }

abbrev pub client_or : Client.Client → Option Client.Client → Client.Client
client_or c none = c
client_or c (some c') = c'

abbrev pub with_shared : Miner → Shared → Miner
with_shared m s = record m {
  tq = s.tq;
  bq = s.bq;
  peerq = s.peerq;
  bc = s.bc;
  client = client_or m.client s.client;
}

pub data Step (sha1 : Bytes → Bytes) (s t : Node) : Type 0 where
  continues :
      (env : Environment) (m : Miner)
      → s.pc ≡ at_top
      → first_half env s.miner ≡ ok (m, true)
      → t ≡ node at_top m
      → Step sha1 s t
  goes_on :
      (env : Environment) (m : Miner)
      → s.pc ≡ at_top
      → first_half env s.miner ≡ ok (m, false)
      → t ≡ node at_pop m
      → Step sha1 s t
  finishes :
      (m : Miner)
      → s.pc ≡ at_pop
      → second_half sha1 s.miner ≡ ok (some m)
      → t ≡ node at_top m
      → Step sha1 s t
  receives_block :
      (block_msg : BlockMsg) (r : Shared × Status)
      → Server.broadcast_block (shared s.miner) block_msg ≡ ok r
      → t ≡ node s.pc (with_shared s.miner r.0)
      → Step sha1 s t
  receives_transaction :
      (transaction_msg : TransactionMsg)
      → t
        ≡ node s.pc
            (with_shared s.miner (Server.broadcast_transaction (shared s.miner) transaction_msg).0)
      → Step sha1 s t
  gives_peers :
      (metadata : Metadata) (r : Shared × Status × List Bytes)
      → Server.get_addr (shared s.miner) metadata ≡ ok r
      → t ≡ node s.pc (with_shared s.miner r.0)
      → Step sha1 s t

pub data Reach (sha1 : Bytes → Bytes) (s : Node) : Node → Type 0 where
  here : Reach sha1 s s
  next : {t u : Node} → Reach sha1 s t → Step sha1 t u → Reach sha1 s u

pub start-Inv :
    (first second : Addresses) (rest : TwoBytes) (my_address first_peer : Bytes)
    → Inv (start first second rest my_address first_peer)
start-Inv first second rest my_address first_peer = record {
  consistent = init-IsConsistent rest;
  limited = omega arith;
  network =
      (bootstrap_peers-IsNetwork second _
        (bootstrap_peers-IsNetwork first _ (init-IsNetwork my_address first_peer)).0).0;
  working = new_block-IsWorking (λ _. false);
  queued = tt;
}

length-write_slot :
    (i : ℕ) (t : Transaction) (slots out : Slots)
    → write_slot i t slots ≡ ok out
    → length out ≡ length slots
unfolding write_slot
length-write_slot i t [] out e = cc
length-write_slot zero t (x ∷ slots) out e = ap length (sym (ok-injective e))
length-write_slot (suc i) t (x ∷ slots) out e =
    let (r, f, g) = >>=-eq-ok (write_slot i t slots) _ e in
    ap length (sym (ok-injective g)) ∙ ap suc (length-write_slot i t slots r f)

length-decode_slots :
    (i : ℕ) (ms : List TransactionMsg) (slots out : Slots)
    → decode_slots i ms slots ≡ ok out
    → length out ≡ length slots
unfolding decode_slots
length-decode_slots i [] slots out e = ap length (sym (ok-injective e))
length-decode_slots i (m ∷ ms) slots out e =
    let (r, f, g) = >>=-eq-ok (write_slot i (decode_transaction m) slots) _ e in
    length-decode_slots (suc i) ms r out g ∙ length-write_slot i (decode_transaction m) slots r f

pub decode_block-HasSlots : (m : BlockMsg) (b : Block) → decode_block m ≡ ok b → HasSlots b
unfolding decode_block
decode_block-HasSlots m b e =
    let (slots, f, g) =
      >>=-eq-ok (decode_slots 0 m.transaction_msg new_block.transaction_array) _ e in
    ap (λ b. length b.transaction_array) (sym (ok-injective g))
    ∙ length-decode_slots 0 m.transaction_msg new_block.transaction_array slots f

pub All-push : (q : Queue Block) (b : Block) → All HasSlots q → HasSlots b → All HasSlots (push q b)
unfolding push
All-push [] b all h = (h, tt)
All-push (x ∷ q) b all h = (all.0, All-push q b all.1 h)
