-- ===== src/Miner/Polling.antt =====
-- Votes that arrive one by one at a miner: `BroadcastTransaction` of server.cpp, and the rounds of
-- `processing_thread` (peer.cpp) up to a full working block.
use blockchain_voting.Base.{
  ℕ, suc, ◌+◌, ◌-◌, ◌≤◌, ◌<◌, ◌≡◌, refl, sym, ap, ◌∙◌, Bool, true, false, Option, none, some, List,
  [], ◌∷◌, ◌++◌, arith, ◌==◌, if◌then◌else◌, length, length-append, Result, ok, ◌>>=◌, Bytes,
}
use blockchain_voting.Memory.{buf, c_string, public_key_size}
use blockchain_voting.Block.{Block, Transaction, num_transactions_per_block, read_slots, rounds}
use blockchain_voting.Block.Slots.{filled, read_slots-filled, write_slot-filled}
use blockchain_voting.SyncQueue.{Queue, push, pop}
use blockchain_voting.Blockchain.{Blockchain, get_head_block}
use blockchain_voting.Codec.{TransactionMsg, decode_transaction}
use blockchain_voting.Codec.RoundTrip.{rounds-small}
use blockchain_voting.Client.{Client}
use blockchain_voting.Server
use blockchain_voting.Miner.{
  Miner, Environment, first_half, has_key, take_in, mine, handle_transaction, on_pop, second_half,
  last_number,
}
use blockchain_voting.Miner.System.{shared, with_shared}
use blockchain_voting.Miner.Gathering.{taken_in}
use blockchain_voting.Miner.Loop.{round}
use blockchain_voting.Miner.Quiet.{opened, first_half-quiet}
use blockchain_voting.Miner.Liveness.{IsMining}

-- A vote that arrives, and what the world does in the round that follows.
abbrev pub Arrival : Type 0
Arrival = Environment × TransactionMsg

abbrev pub vote_in : Arrival → Transaction
vote_in a = decode_transaction a.1

abbrev pub receive : TransactionMsg → Miner → Miner
receive msg m = with_shared m (Server.broadcast_transaction (shared m) msg).0

-- One round after each arrival.
abbrev pub poll : (Bytes → Bytes) → List Arrival → Miner → Result (Option Miner)
poll sha1 [] m = ok (some m)
poll sha1 (a ∷ rest) m = do
  r ← round sha1 a.0 (receive a.1 m)
  elim r [ none ↦ ok none | some m' ↦ poll sha1 rest m' ]

-- None of the voters has voted in the chain, or before in this list, or stands among `ts`.
abbrev pub AllNew : Blockchain → List Transaction → List Arrival → Type 0
AllNew c ts [] = Unit {0}
AllNew c ts (a ∷ rest) =
    (c.voted (vote_in a).sender_public_key ≡ false)
    × (has_key (vote_in a) ts ≡ false)
    × AllNew c (ts ++ vote_in a ∷ []) rest

-- A miner with `ts` in its working block, and nothing waiting for it.
pub record IsGathering (c : Blockchain) (key : Bytes) (magic : ℕ) (m : Miner)
    (ts : List Transaction) : Type 0 where
  pub room : m.quotafull ≡ false
  pub no_transactions : m.tq ≡ []
  pub no_blocks : m.bq ≡ []
  pub no_peers : m.peerq ≡ []
  pub chain : m.bc ≡ c
  pub slots : m.working_block.transaction_array ≡ filled ts (num_transactions_per_block - length ts)
  pub count : m.working_block.max_ind ≡ length ts
  pub verifier : c_string m.working_block.verifier_public_key ≡ ok key
  pub begun : m.working_block.magic ≡ magic

-- The miner once the transaction stands behind `ts`, in whichever slot is left.
abbrev pub took : Miner → Transaction → List Transaction → Miner
took m t ts = record (taken_in m t ts) { quotafull = (length ts + 1 == num_transactions_per_block) }

if_none : (x q : Bool) → q ≡ false → (if x then true else q) ≡ x
if_none true q e = refl
if_none false q e = e

round-second_half :
    (sha1 : Bytes → Bytes) (env : Environment) (m x : Miner)
    → first_half env m ≡ ok (x, false)
    → round sha1 env m ≡ second_half sha1 x
unfolding round
round-second_half sha1 env m x e = rw e

pub second_half-pop :
    (sha1 : Bytes → Bytes) (x : Miner) (t : Transaction) (q : Queue Transaction) (r : Result Miner)
    → x.quotafull ≡ false
    → pop x.tq ≡ some (t, q)
    → handle_transaction sha1 (record x { tq = q }) t ≡ r
    → second_half sha1 x ≡ (r >>= λ m'. ok (some m'))
unfolding second_half on_pop
second_half-pop sha1 x t q r room popped handled =
    ap (λ b. if b then (do m' ← mine sha1 x; ok (some m')) else on_pop sha1 x (pop x.tq)) room
    ∙ ap (on_pop sha1 x) popped
    ∙ ap (λ r. do m' ← r; ok (some m')) handled

module _ (c : Blockchain) (key : Bytes) (magic : ℕ) where
  take_in-took :
      (m : Miner) (t : Transaction) (ts : List Transaction)
      → IsGathering c key magic m ts
      → length ts < num_transactions_per_block
      → take_in m t ≡ ok (took m t ts)
  unfolding take_in
  take_in-took m t ts g short =
      let left : num_transactions_per_block - length ts
          ≡ suc (num_transactions_per_block - (length ts + 1)) =
        omega arith in
      rw
        (
          g.slots,
          g.count,
          left,
          write_slot-filled ts (num_transactions_per_block - (length ts + 1)) t,
        )
        (ap (λ q. ok (record (taken_in m t ts) { quotafull = q }))
          (if_none (length ts + 1 == num_transactions_per_block) m.quotafull g.room))

  read-gathered :
      (m : Miner) (ts : List Transaction)
      → IsGathering c key magic m ts
      → length ts < num_transactions_per_block
      → read_slots (rounds m.working_block.max_ind) m.working_block.transaction_array ≡ ok ts
  read-gathered m ts g short =
      let small = rounds-small (length ts) (omega arith) in
      rw (g.slots, g.count, small) (read_slots-filled ts (num_transactions_per_block - length ts))

  handle_transaction-took :
      (sha1 : Bytes → Bytes) (m : Miner) (t : Transaction) (ts : List Transaction)
      → IsGathering c key magic m ts
      → length ts < num_transactions_per_block
      → c.voted t.sender_public_key ≡ false
      → has_key t ts ≡ false
      → handle_transaction sha1 m t ≡ mine sha1 (took m t ts)
  unfolding handle_transaction
  handle_transaction-took sha1 m t ts g short new absent =
      let fresh : m.bc.voted t.sender_public_key ≡ false =
        ap (λ x. x.voted t.sender_public_key) g.chain ∙ new in
      rw (fresh, read-gathered m ts g short, absent, take_in-took m t ts g short) refl

  -- The miner before the second half of the round that follows an arrival.
  abbrev pub popped : Miner → Client → ℕ → Miner
  popped m cl l = record (opened m cl l) { tq = [] }

  popped-IsGathering :
      (m : Miner) (cl : Client) (l : ℕ) (ts : List Transaction)
      → IsGathering c key magic m ts
      → IsGathering c key magic (popped m cl l) ts
  popped-IsGathering m cl l ts g = record {
    room = g.room;
    no_transactions = refl;
    no_blocks = g.no_blocks;
    no_peers = refl;
    chain = g.chain;
    slots = g.slots;
    count = g.count;
    verifier = g.verifier;
    begun = g.begun;
  }

  pub round-took :
      (sha1 : Bytes → Bytes) (a : Arrival) (m : Miner) (ts : List Transaction)
      → IsGathering c key magic m ts
      → length ts < num_transactions_per_block
      → c.voted (vote_in a).sender_public_key ≡ false
      → has_key (vote_in a) ts ≡ false
      → (m1 : Miner) × IsGathering c key magic m1 ts
        × (round sha1 a.0 (receive a.1 m)
            ≡ (mine sha1 (took m1 (vote_in a) ts) >>= λ m'. ok (some m')))
  unfolding pop push Server.broadcast_transaction
  round-took sha1 a m ts g short new absent =
      let (cl, l, e) = first_half-quiet a.0 (receive a.1 m) g.no_peers g.no_blocks in
      let m1 = popped m cl l in
      let g1 = popped-IsGathering m cl l ts g in
      (
        m1,
        g1,
        round-second_half sha1 a.0 (receive a.1 m) (opened (receive a.1 m) cl l) e
            ∙ second_half-pop sha1 (opened (receive a.1 m) cl l) (vote_in a) [] _ g.room
                (ap (λ q. pop (push q (vote_in a))) g.no_transactions)
                (handle_transaction-took sha1 m1 (vote_in a) ts g1 short new absent),
      )

  pub took-IsGathering :
      (m : Miner) (t : Transaction) (ts : List Transaction)
      → IsGathering c key magic m ts
      → length ts + 1 < num_transactions_per_block
      → IsGathering c key magic (took m t ts) (ts ++ t ∷ [])
  took-IsGathering m t ts g short =
      let len : length (ts ++ t ∷ []) ≡ length ts + 1 = length-append ts (t ∷ []) in
      record {
        room = ground arith;
        no_transactions = g.no_transactions;
        no_blocks = g.no_blocks;
        no_peers = g.no_peers;
        chain = g.chain;
        slots = ap (λ n. filled (ts ++ t ∷ []) (num_transactions_per_block - n)) (sym len);
        count = sym len;
        verifier = g.verifier;
        begun = g.begun;
      }

  module _ (head : Block) (p : Bytes) (at_head : get_head_block c ≡ ok head)
      (head_hash : head.finhash ≡ buf p) (long_hash : public_key_size ≤ length p)
      (short : c.chain_length < last_number) where
    pub took-IsMining :
        (m : Miner) (t first : Transaction) (ts rest : List Transaction)
        → IsGathering c key magic m ts
        → length ts + 1 ≡ num_transactions_per_block
        → ts ++ t ∷ [] ≡ first ∷ rest
        → IsMining (took m t ts) first (filled rest 0) (ts ++ t ∷ []) head p key
    took-IsMining m t first ts rest g last same =
        let none_left : num_transactions_per_block - (length ts + 1) ≡ 0 = omega arith in
        let len : length (ts ++ t ∷ []) ≡ num_transactions_per_block =
          length-append ts (t ∷ []) ∙ last in
        let slots : filled (ts ++ t ∷ []) (num_transactions_per_block - (length ts + 1))
            ≡ filled (ts ++ t ∷ []) 0 =
          ap (filled (ts ++ t ∷ [])) none_left in
        record {
          full = ground arith;
          no_blocks = g.no_blocks;
          no_peers = g.no_peers;
          first = slots ∙ ap (λ us. filled us 0) same;
          written =
              ap (read_slots num_transactions_per_block) slots
              ∙ ap (λ n. read_slots n (filled (ts ++ t ∷ []) 0)) (sym len)
              ∙ read_slots-filled (ts ++ t ∷ []) 0;
          short = rw g.chain short;
          at_head = rw g.chain at_head;
          head_hash = head_hash;
          long_hash = long_hash;
          verifier = g.verifier;
        }
