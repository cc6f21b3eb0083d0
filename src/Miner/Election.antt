-- ===== src/Miner/Election.antt =====
-- Eight votes that arrive one by one at a miner, and end up in its chain: the handler
-- `BroadcastTransaction` of server.cpp and the rounds of `processing_thread` (peer.cpp).
use blockchain_voting.Base.{
  length-map, ℕ, suc, ◌+◌, ◌-◌, ◌*◌, ◌≤◌, ◌<◌, ◌≡◌, refl, sym, ap, subst, ◌∙◌, ◌≢◌, inl, inr, true,
  false, Option, none, some, List, [], ◌∷◌, ◌++◌, map, append_assoc, arith, if◌then◌else◌, length,
  take, length-append, Result, ok, err, ◌>>=◌, Bytes,
}
use blockchain_voting.Memory.{buf, first_char, public_key_size}
use blockchain_voting.Block.{
  Slots, Block, Transaction, num_transactions_per_block, read_slots, new_block,
}
use blockchain_voting.Block.Slots.{length-filled, filled}
use blockchain_voting.Hash.{meets_target}
use blockchain_voting.Finhash.{IsSha1, hashed_bytes}
use blockchain_voting.Finhash.Laws.{root_of}
use blockchain_voting.Blockchain.{Blockchain, get_head_block}
use blockchain_voting.Codec.{BlockMsg, encode_block}
use blockchain_voting.Miner.Sending.{each_to}
use blockchain_voting.Miner.{Sent, sent_block}
use blockchain_voting.Blockchain.Adding.{numbered, added}
use blockchain_voting.Miner.{Miner, Environment, mine, try_magic, num_magic_to_try, last_number}
use blockchain_voting.Miner.Mining.{hashed, succeeds, attempt}
use blockchain_voting.Miner.Loop.{round, run}
use blockchain_voting.Miner.Liveness.{
  IsMining, HasMined, rehashed-IsMining, try_magic-HasMined, run-HasMined,
}
use blockchain_voting.Miner.Sending.{on_head}
use blockchain_voting.Miner.Polling.{
  Arrival, vote_in, receive, poll, AllNew, IsGathering, took, round-took, took-IsGathering,
  took-IsMining,
}

abbrev pub run_on : (Bytes → Bytes) → List Environment → Option Miner → Result (Option Miner)
run_on sha1 envs none = ok none
run_on sha1 envs (some m) = run sha1 envs m

-- The arrivals, and then as many rounds as there are environments.
abbrev pub election :
    (Bytes → Bytes) → List Arrival → List Environment → Miner → Result (Option Miner)
election sha1 arrivals envs m = poll sha1 arrivals m >>= run_on sha1 envs

poll_one :
    (sha1 : Bytes → Bytes) (a : Arrival) (m : Miner) (r : Result Miner)
    → round sha1 a.0 (receive a.1 m) ≡ (r >>= λ m'. ok (some m'))
    → poll sha1 (a ∷ []) m ≡ (r >>= λ m'. ok (some m'))
poll_one sha1 a m (ok m') e = rw e refl
poll_one sha1 a m (err reason) e = rw e refl

mine-full :
    (sha1 : Bytes → Bytes) (m : Miner)
    → m.quotafull ≡ true
    → mine sha1 m ≡ try_magic sha1 num_magic_to_try m
unfolding mine
mine-full sha1 m e = ap (λ q. if q then try_magic sha1 num_magic_to_try m else ok m) e

mine-room : (sha1 : Bytes → Bytes) (m : Miner) → m.quotafull ≡ false → mine sha1 m ≡ ok m
unfolding mine
mine-room sha1 m e = ap (λ q. if q then try_magic sha1 num_magic_to_try m else ok m) e

module _ (sha1 : Bytes → Bytes) (c : Blockchain) (key : Bytes) (magic : ℕ) (head : Block)
    (p : Bytes) (at_head : get_head_block c ≡ ok head) (head_hash : head.finhash ≡ buf p)
    (long_hash : public_key_size ≤ length p) (short : c.chain_length < last_number) where
  -- What the votes lead to: a full working block of theirs, and 1024 attempts.
  poll-IsMining :
      (arrivals : List Arrival) (m : Miner) (ts : List Transaction) (first : Transaction)
      (rest : List Transaction)
      → IsGathering c key magic m ts
      → AllNew c ts arrivals
      → length ts < num_transactions_per_block
      → length ts + length arrivals ≡ num_transactions_per_block
      → ts ++ map vote_in arrivals ≡ first ∷ rest
      → (m1 : Miner) × IsMining m1 first (filled rest 0) (ts ++ map vote_in arrivals) head p key
        × (m1.bc ≡ c)
        × (m1.working_block.magic ≡ magic)
        × (m1.working_block.transaction_array ≡ filled (ts ++ map vote_in arrivals) 0)
        × (poll sha1 arrivals m ≡ (try_magic sha1 num_magic_to_try m1 >>= λ m'. ok (some m')))
  poll-IsMining [] m ts first rest g new few all same = absurd (omega arith)
  poll-IsMining (a ∷ []) m ts first rest g new few all same =
      let (m0, g0, e) = round-took c key magic sha1 a m ts g few new.0 new.1 in
      let last : length ts + 1 ≡ num_transactions_per_block = omega arith in
      let m1 = took m0 (vote_in a) ts in
      let v =
        took-IsMining c key magic head p at_head head_hash long_hash short m0 (vote_in a) first ts
          rest g0 last same in
      (
        m1,
        v,
        g0.chain,
        g0.begun,
        v.first ∙ ap (λ us. filled us 0) (sym same),
        poll_one sha1 a m _ (e ∙ ap (λ r. r >>= λ m'. ok (some m')) (mine-full sha1 m1 v.full)),
      )
  poll-IsMining (a ∷ b ∷ arrivals) m ts first rest g new few all same =
      let (m0, g0, e) = round-took c key magic sha1 a m ts g few new.0 new.1 in
      let more : length ts + 1 < num_transactions_per_block = omega arith in
      let t = vote_in a in
      let g1 = took-IsGathering c key magic m0 t ts g0 more in
      let ended : round sha1 a.0 (receive a.1 m) ≡ ok (some (took m0 t ts)) =
        e ∙ ap (λ r. r >>= λ m'. ok (some m')) (mine-room sha1 (took m0 t ts) g1.room) in
      let len : length (ts ++ t ∷ []) ≡ length ts + 1 = length-append ts (t ∷ []) in
      let joined : (ts ++ t ∷ []) ++ map vote_in (b ∷ arrivals)
          ≡ ts ++ map vote_in (a ∷ b ∷ arrivals) =
        append_assoc ts (t ∷ []) (map vote_in (b ∷ arrivals)) in
      let (m1, v, bc, begun, slots, polled) =
        poll-IsMining (b ∷ arrivals) (took m0 t ts) (ts ++ t ∷ []) first rest g1 new.2 (omega arith)
          (omega arith) (joined ∙ same) in
      (
        m1,
        subst (λ us. IsMining m1 first (filled rest 0) us head p key) joined v,
        bc,
        begun,
        slots ∙ ap (λ us. filled us 0) joined,
        rw ended polled,
      )

-- The chain has taken a block of these votes, on top of the head, whose hash meets the target; the
-- block's message is what was sent last, to each peer; and the miner has begun a new working block.
pub record HasElected (c : Blockchain) (head : Block) (votes : List Transaction) (m' : Miner)
    : Type 0 where
  pub block : Block
  pub grown : m'.bc ≡ added c block votes
  pub whole : length block.transaction_array ≡ num_transactions_per_block
  pub holds : read_slots num_transactions_per_block block.transaction_array ≡ ok votes
  pub on_top : block.prev_block_sha1 ≡ head.finhash
  pub hash : Bytes
  pub hashed_to : block.finhash ≡ buf hash
  pub proved : meets_target hash ≡ true
  pub next_block : m'.working_block ≡ new_block
  pub next_room : m'.quotafull ≡ false
  pub zero_ind : block.max_ind ≡ 0
  pub msg : BlockMsg
  pub encoded : encode_block (numbered c block) ≡ ok msg
  pub before : List Sent
  pub sent_last : m'.sent ≡ before ++ map sent_block (each_to msg m'.client.peer_clients)

HasMined-HasElected :
    (sha1 : Bytes → Bytes) (c : Blockchain) (head : Block) (t : Transaction)
    (votes : List Transaction) (m1 m' : Miner)
    → m1.bc ≡ c
    → length m1.working_block.transaction_array ≡ num_transactions_per_block
    → read_slots num_transactions_per_block m1.working_block.transaction_array ≡ ok votes
    → HasMined sha1 t votes head m1 m'
    → HasElected c head votes m'
HasMined-HasElected sha1 c head t votes m1 m' same whole written
      (magic, hit, bc, room, w, msg, encoded, before, sent_last) =
    let b = on_head head (hashed sha1 t m1.working_block magic) in
    record {
      block = b;
      grown = bc ∙ ap (λ x. added x b votes) same;
      whole = whole;
      holds = written;
      on_top = refl;
      hash = sha1 (hashed_bytes (root_of sha1 t) magic);
      hashed_to = refl;
      proved = hit;
      next_block = w;
      next_room = room;
      zero_ind = refl;
      msg = msg;
      encoded = ap (λ x. encode_block (numbered x b)) (sym same) ∙ encoded;
      before = before;
      sent_last = sent_last;
    }

module _ (sha1 : Bytes → Bytes) (law : IsSha1 sha1) (t : Transaction)
    (long : public_key_size ≤ length t.sender_public_key) (b : ℕ)
    (starts : first_char (buf (root_of sha1 t)) ≡ ok b) (nonzero : b ≢ 0) (c : Blockchain)
    (key : Bytes) (head : Block) (p : Bytes) (slots : Slots) (votes : List Transaction)
    (eight : suc (length slots) ≡ num_transactions_per_block) where
  abbrev FinishedBy : Miner → List Environment → Type 0
  FinishedBy m envs =
      (n : ℕ) × (n ≤ length envs)
      × (m' : Miner) × (((try_magic sha1 num_magic_to_try m >>= λ x. ok (some x))
            >>= run_on sha1 (take n envs))
          ≡ ok (some m'))
      × HasElected c head votes m'

  mining-HasElected :
      (m : Miner) (envs : List Environment) (k : ℕ)
      → IsMining m t slots votes head p key
      → m.bc ≡ c
      → k < suc (length envs) * num_magic_to_try
      → succeeds sha1 t (attempt m.working_block.magic k) ≡ true
      → FinishedBy m envs
  unfolding run
  mining-HasElected m envs k v same lt hit =
      let w = m.working_block in
      elim (try_magic-HasMined sha1 law t long b starts nonzero slots votes head p key m
        (length envs) k v lt hit) [
          | inl (m', e, mined) ↦ (
            0,
            omega arith,
            m',
            rw e refl,
            HasMined-HasElected sha1 c head t votes m m' same (ap length v.first ∙ eight) v.written
                mined,
          )
          | inr (e, low, again) ↦
              let m1 : Miner = record m {
                working_block = hashed sha1 t w (attempt w.magic 1023);
              } in
              let v1 =
                rehashed-IsMining sha1 law t long b starts nonzero slots votes head p key m
                  (attempt w.magic 1023) v in
              let (n, few, m', ran, mined) =
                run-HasMined sha1 law t long b starts nonzero slots votes head p key envs m1
                  (k - num_magic_to_try) v1 low again in
              (
                n,
                few,
                m',
                rw e ran,
                HasMined-HasElected sha1 c head t votes m1 m' same (ap length v1.first ∙ eight)
                    v1.written mined,
              )
        ]

module _ (sha1 : Bytes → Bytes) (law : IsSha1 sha1) (c : Blockchain) (key : Bytes) (magic : ℕ)
    (head : Block) (p : Bytes) (at_head : get_head_block c ≡ ok head)
    (head_hash : head.finhash ≡ buf p) (long_hash : public_key_size ≤ length p)
    (short : c.chain_length < last_number) (first : Arrival)
    (long : public_key_size ≤ length (vote_in first).sender_public_key) (b : ℕ)
    (starts : first_char (buf (root_of sha1 (vote_in first))) ≡ ok b) (nonzero : b ≢ 0) where
  -- Eight votes of voters who have not voted, which arrive one by one at a miner with an empty
  -- working block and nothing waiting for it, are in the chain after at most `length envs` more
  -- rounds, if among the attempts of the last vote's round and of these, 1024 in each, there is one
  -- that succeeds: no round goes wrong, and the new block holds the eight votes in the order of
  -- their arrival, on top of the head and under a hash that meets the target. The chain takes
  -- another block, the head's hash has 20 bytes or more, the first vote's key 20 characters or
  -- more, and its merkle root begins with no zero byte.
  pub election-HasElected :
      (others : List Arrival) (envs : List Environment) (m : Miner) (k : ℕ)
      → IsGathering c key magic m []
      → length others + 1 ≡ num_transactions_per_block
      → AllNew c [] (first ∷ others)
      → k < suc (length envs) * num_magic_to_try
      → succeeds sha1 (vote_in first) (attempt magic k) ≡ true
      → (n : ℕ) × (n ≤ length envs)
        × (m' : Miner) × (election sha1 (first ∷ others) (take n envs) m ≡ ok (some m'))
        × HasElected c head (map vote_in (first ∷ others)) m'
  election-HasElected others envs m k g all new lt hit =
      let votes = map vote_in (first ∷ others) in
      let t = vote_in first in
      let slots = filled (map vote_in others) 0 in
      let (m1, v, same, begun, _, polled) =
        poll-IsMining sha1 c key magic head p at_head head_hash long_hash short (first ∷ others) m
          [] t (map vote_in others) g new (omega arith) (omega arith) refl in
      let eight : suc (length slots) ≡ num_transactions_per_block =
        omega (arith, length-filled (map vote_in others) 0, length-map vote_in others) in
      let hit1 : succeeds sha1 t (attempt m1.working_block.magic k) ≡ true =
        ap (λ x. succeeds sha1 t (attempt x k)) begun ∙ hit in
      let (n, few, m', ran, elected) =
        mining-HasElected sha1 law t long b starts nonzero c key head p slots votes eight m1 envs k
          v same lt hit1 in
      (n, few, m', (ap (λ r. r >>= run_on sha1 (take n envs)) polled ∙ ran), elected)
