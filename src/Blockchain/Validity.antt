-- ===== src/Blockchain/Validity.antt =====
-- `check_block_validity` and `add_block` of processor.cpp: what is accepted, and what it keeps.
use blockchain_voting.Blockchain.{TwoBytes}
use blockchain_voting.Base.{
  ℕ, zero, suc, ◌+◌, ◌≤◌, ◌<◌, ◌≡◌, refl, sym, ◌∙◌, Bool, true, false, not, ◌||◌, List, [], ◌∷◌,
  arith, if◌then◌else◌, length, take, All, ok, err, uninitialised, >>=-eq-ok, Bytes, bytes_eq,
  bytes_eq_refl,
}
use blockchain_voting.Memory.{buf, same_hash, public_key_size}
use blockchain_voting.Memory.Laws.{same_hash-eq}
use blockchain_voting.Block.{Block, Transaction, Slots, num_transactions_per_block, read_slots}
use blockchain_voting.Block.Slots.{filled}
use blockchain_voting.Blockchain.{
  Blockchain, Voted, init, verify_slots, verify_transactions, add_block, check_block_validity,
  block_ok, prev_block_nonmatch, transaction_invalid, get_head_block,
}
use blockchain_voting.Blockchain.Adding.{added, numbered, add_block-ok}
use blockchain_voting.Blockchain.Voters.{
  insert_keys-eq, read_slots-have, verify_slots-true, mem_new, IsConsistent,
}

abbrev pub any_voted : Voted → List Transaction → Bool
any_voted voted [] = false
any_voted voted (t ∷ ts) = voted t.sender_public_key || any_voted voted ts

verify_slots-filled :
    (voted : Voted) (ts : List Transaction) (free : ℕ)
    → verify_slots (length ts) (filled ts free) voted ≡ ok (not (any_voted voted ts))
unfolding verify_slots
verify_slots-filled voted [] free = refl
verify_slots-filled voted (t ∷ ts) free = ground (arith, verify_slots-filled voted ts free)

verify_slots_short :
    (voted : Voted) (ts : List Transaction) (free n : ℕ)
    → length ts < n
    → n ≤ length ts + free
    → any_voted voted ts ≡ false
    → verify_slots n (filled ts free) voted ≡ err uninitialised
unfolding verify_slots
verify_slots_short voted ts free zero h k new = absurd (omega arith)
verify_slots_short voted [] zero (suc n) h k new = absurd (omega arith)
verify_slots_short voted [] (suc free) (suc n) h k new = refl
verify_slots_short voted (t ∷ ts) free (suc n) h k new =
    ground (arith, verify_slots_short voted ts free n)

verify_transactions-eq :
    (c : Blockchain) (b : Block) (n : ℕ) (slots : Slots)
    → n ≡ num_transactions_per_block
    → b.transaction_array ≡ slots
    → verify_transactions c b ≡ verify_slots n slots c.voted
unfolding verify_transactions
verify_transactions-eq c b n slots e f = rw (e, f)

module _ (c : Blockchain) (b head : Block) (bs : List Block) (p f : Bytes)
    (counted : 1 ≤ c.chain_length) (chain : c.blocks ≡ head ∷ bs) (prev : b.prev_block_sha1 ≡ buf p)
    (hash : head.finhash ≡ buf f) (long_p : public_key_size ≤ length p)
    (long_f : public_key_size ≤ length f) where
  get_head_block-eq : get_head_block c ≡ ok head
  unfolding get_head_block
  get_head_block-eq = rw chain (ground arith)

  -- On a block whose eight slots are written, `check_block_validity` says PREV_BLOCK_NONMATCH if
  -- the first 20 bytes of the previous hash differ from the head's, else TRANSACTION_INVALID if a
  -- key in it has voted, else OK.
  pub check_block_validity-eq :
      (ts : List Transaction)
      → b.transaction_array ≡ filled ts 0
      → length ts ≡ num_transactions_per_block
      → check_block_validity c b
        ≡ ok (
            if not (bytes_eq (take public_key_size p) (take public_key_size f))
            then prev_block_nonmatch
            else (if any_voted c.voted ts then transaction_invalid else block_ok))
  unfolding check_block_validity
  check_block_validity-eq ts slots full =
      rw
        (
          verify_transactions-eq c b (length ts) (filled ts 0) full slots,
          verify_slots-filled,
          get_head_block-eq,
          prev,
          hash,
          same_hash-eq p f long_p long_f,
        )
        (ground arith)

  -- On a chain whose head has a hash of 20 bytes or more, a block that extends the head with fewer
  -- than eight transactions, none of whose keys has voted, makes the check read a slot that was
  -- never written.
  pub check_block_validity_short :
      (ts : List Transaction) (free : ℕ)
      → b.transaction_array ≡ filled ts free
      → length ts < num_transactions_per_block
      → num_transactions_per_block ≤ length ts + free
      → any_voted c.voted ts ≡ false
      → take public_key_size p ≡ take public_key_size f
      → check_block_validity c b ≡ err uninitialised
  unfolding check_block_validity
  check_block_validity_short ts free slots short room new same = rw (
    verify_transactions-eq c b 8 (filled ts free) refl slots,
    verify_slots_short c.voted ts free 8 short room new,
    get_head_block-eq,
    prev,
    hash,
    same_hash-eq p f long_p long_f,
    same,
    bytes_eq_refl,
  )

check_block_validity_ok :
    (c : Blockchain) (b : Block)
    → check_block_validity c b ≡ ok block_ok
    → verify_slots num_transactions_per_block b.transaction_array c.voted ≡ ok true
unfolding check_block_validity verify_transactions
check_block_validity_ok c b h =
    let (head, e, f) = >>=-eq-ok (get_head_block c) _ h in
    let (same, g, k) = >>=-eq-ok (same_hash b.prev_block_sha1 head.finhash) _ f in ground arith

-- Adding a block none of whose keys has voted keeps the chain consistent.
pub added-IsConsistent :
    (c : Blockchain) (b : Block) (ts : List Transaction)
    → IsConsistent c
    → length b.transaction_array ≡ num_transactions_per_block
    → read_slots num_transactions_per_block b.transaction_array ≡ ok ts
    → All (λ t. c.voted t.sender_public_key ≡ false) ts
    → IsConsistent (added c b ts)
added-IsConsistent c b ts v len e new = record {
  exact = λ j. rw (insert_keys-eq, v.exact, read_slots-have 8 b.transaction_array ts j len e);
  disjoint = (
    λ j hit.
        sym (v.exact j)
        ∙ mem_new c.voted ts j new (sym (read_slots-have 8 b.transaction_array ts j len e) ∙ hit),
    v.disjoint,
  );
  whole = (len, v.whole);
  headed = omega arith;
  counted = omega arith;
}

-- A block that `check_block_validity` calls OK can be added: `add_block` returns, the chain has the
-- block as its head under the next number, the rest of the chain is as before, and the voters are
-- again exactly the keys in the blocks, no key in two of them.
pub add_block-IsConsistent :
    (c : Blockchain) (b : Block)
    → IsConsistent c
    → length b.transaction_array ≡ num_transactions_per_block
    → check_block_validity c b ≡ ok block_ok
    → (c' : Blockchain) × (add_block c b ≡ ok (c', numbered c b))
      × (c'.blocks ≡ numbered c b ∷ c.blocks)
      × (c'.chain_length ≡ c.chain_length + 1)
      × IsConsistent c'
add_block-IsConsistent c b v len good =
    let (ts, e, new) =
      verify_slots-true 8 b.transaction_array c.voted (check_block_validity_ok c b good) in
    (added c b ts, add_block-ok c b ts e, refl, refl, added-IsConsistent c b ts v len e new)

-- The chain of the constructor is consistent.
pub init-IsConsistent : (rest : TwoBytes) → IsConsistent (init rest)
init-IsConsistent rest = record {
  exact = λ j. refl;
  disjoint = ((λ j h. refl), tt);
  whole = (refl, tt);
  headed = omega arith;
  counted = omega arith;
}

pub check_block_validity-fresh :
    (c : Blockchain) (b : Block)
    → check_block_validity c b ≡ ok block_ok
    → (ts : List Transaction) × (read_slots num_transactions_per_block b.transaction_array ≡ ok ts)
      × All (λ t. c.voted t.sender_public_key ≡ false) ts
check_block_validity-fresh c b good =
    verify_slots-true 8 b.transaction_array c.voted (check_block_validity_ok c b good)
