-- ===== src/Blockchain/Repair/Rollback.antt =====
-- The part of `repair_blockchain` (processor.cpp) that takes blocks off the chain.
use blockchain_voting.Base.{
  ℕ, zero, suc, ◌≤◌, ◌<◌, ◌≡◌, refl, sym, ap, subst, ◌∙◌, Bool, true, Option, some, List, [], ◌∷◌,
  ◌++◌, arith, length, take, drop, All, ok, >>=-eq-ok, ok-injective,
}
use blockchain_voting.Block.{
  Block, Transaction, num_transactions_per_block, read_slots, rounds, keys,
}
use blockchain_voting.SyncQueue.{Queue, push_all}
use blockchain_voting.Blockchain.{
  Blockchain, Voted, erase_keys, check_if_block_in_chain, remove_transactions_from_set,
  add_transactions_to_queue,
}
use blockchain_voting.Blockchain.Lookup.{find_position-Found}
use blockchain_voting.Blockchain.Voters.{erase_keys-eq, read_slots-have, IsConsistent}
use blockchain_voting.Blockchain.Repair.Walk.{find_ancestor-ok}
use blockchain_voting.Blockchain.Repair.{
  Fetch, rollback, add_each_to_set, find_ancestor, repair_blockchain,
}

-- A block that can be taken off: its slots are written, and its `max_ind` stays within them.
-- `back` is what goes back to the queue.
pub record Rollable (b : Block) : Type 0 where
  pub ts : List Transaction
  pub back : List Transaction
  pub written : read_slots num_transactions_per_block b.transaction_array ≡ ok ts
  pub kept : read_slots (rounds b.max_ind) b.transaction_array ≡ ok back

-- What the blocks give back, the newest block's transactions first.
abbrev pub given_back : (bs : List Block) → All Rollable bs → List Transaction
given_back [] rs = []
given_back (b ∷ bs) (r, rs) = r.back ++ given_back bs rs

push_all-nil {ℓ} : {A : Type ℓ} (q : Queue A) → push_all q [] ≡ q
unfolding push_all
push_all-nil q = refl

push_all-append {ℓ} :
    {A : Type ℓ} (q : Queue A) (xs ys : List A)
    → push_all q (xs ++ ys) ≡ push_all (push_all q xs) ys
unfolding push_all
push_all-append q [] ys = refl
push_all-append q (x ∷ xs) ys = push_all-append _ xs ys

-- The chain without its head block.
abbrev pub beheaded : ℕ → List Block → Voted → List Transaction → Blockchain
beheaded n bs voted ts = record {
  chain_length = n;
  blocks = bs;
  voted = erase_keys (keys ts) voted;
}

-- The outcome of taking `i` blocks off `c`.
abbrev pub RolledBack : ℕ → Blockchain → Blockchain → Type 0
RolledBack i c c' =
    (c'.blocks ≡ drop i c.blocks) × (c'.chain_length ≡ c.chain_length) × IsConsistent c'

module _ (n : ℕ) (b : Block) (bs : List Block) (voted : Voted) (ts : List Transaction)
    (e : read_slots num_transactions_per_block b.transaction_array ≡ ok ts) where
  beheaded-IsConsistent :
      IsConsistent (record { chain_length = n; blocks = b ∷ bs; voted = voted })
      → 1 ≤ length bs
      → IsConsistent (beheaded n bs voted ts)
  beheaded-IsConsistent v rest = record {
    exact = λ j.
        let have = read_slots-have 8 b.transaction_array ts j v.whole.0 e in
        let old = v.exact j in
        let apart = v.disjoint.0 j in erase_keys-eq (keys ts) voted j ∙ ground arith;
    disjoint = v.disjoint.1;
    whole = v.whole.1;
    headed = rest;
    counted = v.counted;
  }

rollback-parts :
    (i n : ℕ) (bs : List Block) (voted : Voted) (q : Queue Transaction)
    (rs : All Rollable (take i bs))
    → i < length bs
    → IsConsistent (record { chain_length = n; blocks = bs; voted = voted })
    → (c' : Blockchain) × (rollback i (record { chain_length = n; blocks = bs; voted = voted }) q
        ≡ ok (c', push_all q (given_back (take i bs) rs)))
      × RolledBack i (record { chain_length = n; blocks = bs; voted = voted }) c'
unfolding rollback remove_transactions_from_set add_transactions_to_queue
rollback-parts zero n bs voted q rs lt v =
    (record { chain_length = n; blocks = bs; voted = voted }, rw push_all-nil, (refl, refl, v))
rollback-parts (suc i) n [] voted q rs lt v = absurd (omega arith)
rollback-parts (suc i) n (b ∷ bs) voted q (r, rs) lt v =
    let v' = beheaded-IsConsistent n b bs voted r.ts r.written v (omega arith) in
    let (c', run, out) =
      rollback-parts i n bs (erase_keys (keys r.ts) voted) (push_all q r.back) rs (omega arith)
        v' in
    (c', rw (r.written, r.kept, push_all-append) run, out)

-- Taking blocks off returns, gives their transactions back to the queue, leaves the rest of the
-- chain as it is, and takes exactly their keys out of the set of voters.
pub rollback-RolledBack :
    (i : ℕ) (c : Blockchain) (q : Queue Transaction) (rs : All Rollable (take i c.blocks))
    → i < length c.blocks
    → IsConsistent c
    → (c' : Blockchain) × (rollback i c q ≡ ok (c', push_all q (given_back (take i c.blocks) rs)))
      × RolledBack i c c'
rollback-RolledBack i c q rs lt v = rollback-parts i c.chain_length c.blocks c.voted q rs lt v

module _ (fetch : Fetch) (stack : ℕ → Option Block) where
  -- In a consistent chain, if the block is found `i` blocks below the head and the blocks above it
  -- have all eight slots written and a `max_ind` of at most 8, `repair_blockchain` returns true in
  -- its first round: the chain is cut back to that block, the blocks above it give their
  -- transactions back to the queue, and their keys leave the set of voters, which is again exactly
  -- the keys in the chain; `chain_length` keeps its old value.
  pub repair_blockchain_present :
      (fuel i : ℕ) (c : Blockchain) (q : Queue Transaction) (b : Block)
      (rs : All Rollable (take i c.blocks))
      → check_if_block_in_chain c b ≡ ok (some i)
      → IsConsistent c
      → (c' : Blockchain) × (repair_blockchain fetch stack (suc fuel) c q b
          ≡ ok (c', push_all q (given_back (take i c.blocks) rs), true))
        × RolledBack i c c'
  unfolding repair_blockchain find_ancestor add_each_to_set
  repair_blockchain_present fuel i c q b rs at v =
      let found = find_position-Found b.finhash c.blocks i (unfold check_if_block_in_chain in at) in
      let (c', run, out) = rollback-RolledBack i c q rs found.0 v in (c', rw (at, run), out)

-- A rollback that returns has met only blocks that can be taken off.
pub rollback-Rollable :
    (i n : ℕ) (bs : List Block) (voted : Voted) (q : Queue Transaction)
    (r : Blockchain × Queue Transaction)
    → rollback i (record { chain_length = n; blocks = bs; voted = voted }) q ≡ ok r
    → All Rollable (take i bs)
unfolding rollback remove_transactions_from_set add_transactions_to_queue
rollback-Rollable zero n bs voted q r h = tt
rollback-Rollable (suc i) n [] voted q r h = tt
rollback-Rollable (suc i) n (b ∷ bs) voted q r h =
    let (c', e, f) =
      >>=-eq-ok
        (remove_transactions_from_set (record { chain_length = n; blocks = b ∷ bs; voted = voted })
          b)
        _ h in
    let (q', g, k) = >>=-eq-ok (add_transactions_to_queue q b) _ f in
    let (ts, written, at) =
      >>=-eq-ok (read_slots num_transactions_per_block b.transaction_array) _ e in
    let (back, kept, _) = >>=-eq-ok (read_slots (rounds b.max_ind) b.transaction_array) _ g in
    let same : c'
        ≡ record { chain_length = n; blocks = b ∷ bs; voted = erase_keys (keys ts) voted } =
      ground arith in
    (
      record { ts = ts; back = back; written = written; kept = kept },
      rollback-Rollable i n bs (erase_keys (keys ts) voted) q' r (rw same at k),
    )

-- If `repair_blockchain` returns at all, it returns true, and the chain is a tail of the old one:
-- `blocks` has lost its newest blocks, `chain_length` is as before, and the voters are exactly the
-- keys in the blocks that are left.
pub repair_blockchain-ok :
    (fetch : Fetch) (stack : ℕ → Option Block) (fuel : ℕ) (c c' : Blockchain)
    (q q' : Queue Transaction) (b : Block) (repaired : Bool)
    → IsConsistent c
    → repair_blockchain fetch stack fuel c q b ≡ ok (c', q', repaired)
    → (i : ℕ) × (check_if_block_in_chain c b ≡ ok (some i)) × (repaired ≡ true) × RolledBack i c c'
unfolding repair_blockchain add_each_to_set
repair_blockchain-ok fetch stack fuel c c' q q' b repaired v h =
    let (found, e, f) = >>=-eq-ok (find_ancestor fetch stack fuel c b []) _ h in
    let (i, at, r) = find_ancestor-ok fetch stack c b fuel [] found e in
    let (cq, g, k) = >>=-eq-ok (rollback i c q) _ (rw r at f) in
    let rs = rollback-Rollable i c.chain_length c.blocks c.voted q cq g in
    let (c'', run, out) =
      rollback-RolledBack i c q rs
        (find_position-Found b.finhash c.blocks i (unfold check_if_block_in_chain in at)).0 v in
    let same : cq ≡ (c'', push_all q (given_back (take i c.blocks) rs)) =
      ground (arith, sym g ∙ run) in
    let end = ok-injective (rw same at k) in
    (i, at, sym (ap (λ p. p.2) end), subst (RolledBack i c) (ap (λ p. p.0) end) out)
