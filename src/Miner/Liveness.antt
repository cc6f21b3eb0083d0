-- ===== src/Miner/Liveness.antt =====
-- That `processing_thread` (peer.cpp) mines a block that can be mined.
mod Examples
use blockchain_voting.Base.{
  ℕ, suc, ◌-◌, ◌*◌, ◌≤◌, ◌<◌, ◌≡◌, refl, ap, ◌∙◌, ◌≢◌, ◌⊎◌, inl, inr, true, false, some, List, [],
  ◌++◌, map, ◌∷◌, arith, ltb, ltb→lt, Bool-cases, length, take, ok, ◌>>=◌, ◌>>◌, Bytes,
}
use blockchain_voting.Memory.{buf, c_string, public_key_size, first_char}
use blockchain_voting.Block.{
  Block, Transaction, Slots, new_block, num_transactions_per_block, read_slots,
}
use blockchain_voting.Finhash.{IsSha1}
use blockchain_voting.Finhash.Laws.{root_of}
use blockchain_voting.Blockchain.{get_head_block}
use blockchain_voting.Blockchain.Adding.{added, numbered}
use blockchain_voting.Codec.{BlockMsg, encode_block}
use blockchain_voting.Client
use blockchain_voting.Client.{Client}
use blockchain_voting.Client.Messages.{broadcast_block-eq}
use blockchain_voting.Miner.{
  Miner, Sent, sent_block, Environment, finish_block, try_magic, mine, second_half,
  num_magic_to_try, last_number,
}
use blockchain_voting.Miner.Finishing.{finish_block-ok}
use blockchain_voting.Miner.Mining.{hashed, succeeds, attempt, try_magic-Outcome}
use blockchain_voting.Miner.Loop.{round, run}
use blockchain_voting.Miner.Quiet.{opened, first_half-quiet}
use blockchain_voting.Miner.Sending.{on_head, each_to, to_each-ok, encode_block-hashed}

-- A miner with a full working block, and nothing waiting for it.
pub record IsMining (m : Miner) (t : Transaction) (slots : Slots) (ts : List Transaction)
    (head : Block) (p key : Bytes) : Type 0 where
  pub full : m.quotafull ≡ true
  pub no_blocks : m.bq ≡ []
  pub no_peers : m.peerq ≡ []
  pub first : m.working_block.transaction_array ≡ some t ∷ slots
  pub written : read_slots num_transactions_per_block m.working_block.transaction_array ≡ ok ts
  pub short : m.bc.chain_length < last_number
  pub at_head : get_head_block m.bc ≡ ok head
  pub head_hash : head.finhash ≡ buf p
  pub long_hash : public_key_size ≤ length p
  pub verifier : c_string m.working_block.verifier_public_key ≡ ok key

-- The miner has put its working block on the chain, under a `magic` that meets the target, and then
-- sent its message to each peer.
abbrev pub HasMined :
    (Bytes → Bytes) → Transaction → List Transaction → Block → Miner → Miner → Type 0
HasMined sha1 t ts head m m' =
    (magic : ℕ) × (succeeds sha1 t magic ≡ true)
    × (m'.bc ≡ added m.bc (on_head head (hashed sha1 t m.working_block magic)) ts)
    × (m'.quotafull ≡ false)
    × (m'.working_block ≡ new_block)
    × (msg : BlockMsg) × (encode_block
          (numbered m.bc (on_head head (hashed sha1 t m.working_block magic)))
        ≡ ok msg)
    × (before : List Sent) × (m'.sent
        ≡ before ++ map sent_block (each_to msg m'.client.peer_clients))

next_attempt : (base k : ℕ) → 1024 ≤ k → attempt (attempt base 1023) (k - 1024) ≡ attempt base k
next_attempt base k h = omega arith

module _ (sha1 : Bytes → Bytes) (law : IsSha1 sha1) (t : Transaction)
    (long : public_key_size ≤ length t.sender_public_key) (b : ℕ)
    (starts : first_char (buf (root_of sha1 t)) ≡ ok b) (nonzero : b ≢ 0) (slots : Slots)
    (ts : List Transaction) (head : Block) (p key : Bytes) where
  finish_block-HasMined :
      (m : Miner) (magic : ℕ)
      → IsMining m t slots ts head p key
      → succeeds sha1 t magic ≡ true
      → (m' : Miner) × (finish_block sha1 m (hashed sha1 t m.working_block magic) ≡ ok m')
        × HasMined sha1 t ts head m m'
  finish_block-HasMined m magic v hit =
      let w = hashed sha1 t m.working_block magic in
      let (msg, sent) =
        encode_block-hashed sha1 law t m.bc m.working_block head magic p key v.head_hash v.long_hash
          v.verifier in
      let messages = each_to msg m.client.peer_clients in
      let all_sent = to_each-ok _ msg m.client.peer_clients sent in
      let (done, _) =
        finish_block-ok sha1 m w head ts messages v.at_head v.written v.short
          (broadcast_block-eq m.client (numbered m.bc (on_head head w)) ∙ all_sent) in
      (_, done, (magic, hit, refl, refl, refl, msg, sent, m.sent, refl))

  round-mining :
      (env : Environment) (m : Miner)
      → IsMining m t slots ts head p key
      → (c : Client) × (l : ℕ) × (round sha1 env m
          ≡ (try_magic sha1 num_magic_to_try (opened m c l) >>= λ m'. ok (some m')))
  unfolding round second_half mine
  round-mining env m v =
      let (c, l, e) = first_half-quiet env m v.no_peers v.no_blocks in (c, l, rw (e, v.full))

  opened-IsMining :
      (m : Miner) (c : Client) (l : ℕ)
      → IsMining m t slots ts head p key
      → IsMining (opened m c l) t slots ts head p key
  opened-IsMining m c l v = record {
    full = v.full;
    no_blocks = v.no_blocks;
    no_peers = refl;
    first = v.first;
    written = v.written;
    short = v.short;
    at_head = v.at_head;
    head_hash = v.head_hash;
    long_hash = v.long_hash;
    verifier = v.verifier;
  }

  pub rehashed-IsMining :
      (m : Miner) (magic : ℕ)
      → IsMining m t slots ts head p key
      → IsMining
          (record m { working_block = hashed sha1 t m.working_block magic })
          t
          slots
          ts
          head
          p
          key
  rehashed-IsMining m magic v = record {
    full = v.full;
    no_blocks = v.no_blocks;
    no_peers = v.no_peers;
    first = v.first;
    written = v.written;
    short = v.short;
    at_head = v.at_head;
    head_hash = v.head_hash;
    long_hash = v.long_hash;
    verifier = v.verifier;
  }

  later_attempt :
      (base n k : ℕ)
      → ((j : ℕ) → j < num_magic_to_try → succeeds sha1 t (attempt base j) ≡ false)
      → k < suc n * num_magic_to_try
      → succeeds sha1 t (attempt base k) ≡ true
      → (k - num_magic_to_try < n * num_magic_to_try)
        × (succeeds sha1 t (attempt (attempt base 1023) (k - num_magic_to_try)) ≡ true)
  later_attempt base n k all lt hit = elim (Bool-cases (ltb k num_magic_to_try)) [
    | inl low ↦ absurd (let miss = all k (ltb→lt k num_magic_to_try low) in cc)
    | inr high ↦
        let far : num_magic_to_try ≤ k = ground arith in
        (omega arith, ap (succeeds sha1 t) (next_attempt base k far) ∙ hit)
  ]

  -- What 1024 attempts lead to, of which attempt `k` or a later round's succeeds: the block is on
  -- the chain, or the miner goes on with 1024 attempts less to come.
  pub try_magic-HasMined :
      (m : Miner) (n k : ℕ)
      → IsMining m t slots ts head p key
      → k < suc n * num_magic_to_try
      → succeeds sha1 t (attempt m.working_block.magic k) ≡ true
      → ((m' : Miner) × (try_magic sha1 num_magic_to_try m ≡ ok m') × HasMined sha1 t ts head m m')
        ⊎ ((try_magic sha1 num_magic_to_try m
              ≡ ok (record m {
                working_block = hashed sha1 t m.working_block (attempt m.working_block.magic 1023);
              }))
            × (k - num_magic_to_try < n * num_magic_to_try)
            × (succeeds sha1 t (attempt (attempt m.working_block.magic 1023) (k - num_magic_to_try))
                ≡ true))
  try_magic-HasMined m n k v lt hit =
      let w = m.working_block in
      elim (try_magic-Outcome sha1 law t long b starts nonzero num_magic_to_try m slots v.first) [
        | inl (j, _, _, found, e) ↦
            let (m', done, mined) = finish_block-HasMined m (attempt w.magic j) v found in
            inl (m', e ∙ done, mined)
        | inr (all, e) ↦
            let (low, again) = later_attempt w.magic n k all lt hit in inr (e, low, again)
      ]

  run-suc :
      (env : Environment) (envs : List Environment) (m m1 : Miner)
      → round sha1 env m ≡ ok (some m1)
      → run sha1 (env ∷ envs) m ≡ run sha1 envs m1
  unfolding run
  run-suc env envs m m1 e = rw e

  -- A miner with a full working block, with nothing waiting for it and a chain that takes another
  -- block, puts its working block on the chain after at most `length envs` rounds, if among the
  -- attempts of these rounds, 1024 in each, there is one that succeeds: none of the rounds goes
  -- wrong before that, the block's `magic` meets the target, and its message is then sent to each
  -- peer, and nothing after it. The head's hash is of 20 bytes or
  -- more, the verifier's key is a string, slot 0 holds a key of 20 characters or more, and its
  -- merkle root begins with no zero byte.
  pub run-HasMined :
      (envs : List Environment) (m : Miner) (k : ℕ)
      → IsMining m t slots ts head p key
      → k < length envs * num_magic_to_try
      → succeeds sha1 t (attempt m.working_block.magic k) ≡ true
      → (n : ℕ) × (n ≤ length envs)
        × (m' : Miner) × (run sha1 (take n envs) m ≡ ok (some m'))
        × HasMined sha1 t ts head m m'
  run-HasMined [] m k v lt hit = absurd (omega arith)
  run-HasMined (env ∷ envs) m k v lt hit =
      let (c, l, begun) = round-mining env m v in
      let w = m.working_block in
      let at = opened m c l in
      let ends : (m' : Miner)
          → try_magic sha1 num_magic_to_try at ≡ ok m'
          → round sha1 env m ≡ ok (some m') =
        λ m' e. begun ∙ ap (λ r. r >>= λ x. ok (some x)) e in
      elim (try_magic-HasMined at (length envs) k (opened-IsMining m c l v) lt hit) [
        | inl (m', e, mined) ↦
            (1, omega arith, m', (run-suc env [] m m' (ends m' e) ∙ unfold run in refl), mined)
        | inr (e, low, again) ↦
            let w' = hashed sha1 t w (attempt w.magic 1023) in
            let m1 : Miner = record at { working_block = w' } in
            let (n, few, m', ran, mined) =
              run-HasMined envs m1 (k - num_magic_to_try)
                (rehashed-IsMining at (attempt w.magic 1023) (opened-IsMining m c l v)) low again in
            (suc n, omega arith, m', (run-suc env (take n envs) m m1 (ends m1 e) ∙ ran), mined)
      ]
