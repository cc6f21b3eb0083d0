-- ===== src/Blockchain/Voters.antt =====
-- The set of voters of `blockchain` (processor.cpp) and the keys in the blocks of its chain.
use blockchain_voting.Base.{
  ℕ, zero, suc, ◌≤◌, ◌≡◌, refl, inl, inr, Bool, true, false, not, ◌&&◌, ◌||◌, none, some, List, [],
  ◌∷◌, arith, Bool-cases, length, All, ok, >>=-eq-ok, Bytes, bytes_eq, eq_of_bytes_eq, mem,
}
use blockchain_voting.Block.{
  Block, Transaction, Slots, num_transactions_per_block, read_slots, keys,
}
use blockchain_voting.Blockchain.{Voted, insert_keys, erase_keys, verify_slots, Blockchain}

pub insert_keys-eq :
    (ks : List Bytes) (voted : Voted) (j : Bytes) → insert_keys ks voted j ≡ (mem j ks || voted j)
unfolding insert_keys
insert_keys-eq [] voted j = refl
insert_keys-eq (k ∷ ks) voted j = ground (arith, insert_keys-eq ks (λ i. bytes_eq k i || voted i) j)

pub erase_keys-eq :
    (ks : List Bytes) (voted : Voted) (j : Bytes)
    → erase_keys ks voted j ≡ (not (mem j ks) && voted j)
unfolding erase_keys
erase_keys-eq [] voted j = refl
erase_keys-eq (k ∷ ks) voted j =
    ground (arith, erase_keys-eq ks (λ i. not (bytes_eq k i) && voted i) j)

-- Whether a key stands in a written slot.
abbrev pub slots_have : Bytes → Slots → Bool
slots_have j [] = false
slots_have j (none ∷ slots) = slots_have j slots
slots_have j (some t ∷ slots) = bytes_eq t.sender_public_key j || slots_have j slots

abbrev pub block_has : Bytes → Block → Bool
block_has j b = slots_have j b.transaction_array

abbrev pub chain_has : Bytes → List Block → Bool
chain_has j [] = false
chain_has j (b ∷ bs) = block_has j b || chain_has j bs

pub read_slots-have :
    (n : ℕ) (slots : Slots) (ts : List Transaction) (j : Bytes)
    → length slots ≡ n
    → read_slots n slots ≡ ok ts
    → slots_have j slots ≡ mem j (keys ts)
unfolding read_slots
read_slots-have zero [] ts j len h = ground arith
read_slots-have zero (x ∷ slots) ts j len h = absurd (omega arith)
read_slots-have (suc n) [] ts j len h = cc
read_slots-have (suc n) (none ∷ slots) ts j len h = cc
read_slots-have (suc n) (some t ∷ slots) ts j len h =
    let (rest, e, f) = >>=-eq-ok (read_slots n slots) _ h in
    ground (arith, read_slots-have n slots rest j (omega arith) e)

-- A block passes the check exactly when each of its slots is written and none of its keys voted.
pub verify_slots-true :
    (n : ℕ) (slots : Slots) (voted : Voted)
    → verify_slots n slots voted ≡ ok true
    → (ts : List Transaction) × (read_slots n slots ≡ ok ts)
      × All (λ t. voted t.sender_public_key ≡ false) ts
unfolding verify_slots read_slots
verify_slots-true zero slots voted h = ([], refl, tt)
verify_slots-true (suc n) [] voted h = cc
verify_slots-true (suc n) (none ∷ slots) voted h = cc
verify_slots-true (suc n) (some t ∷ slots) voted h =
    let (ts, e, a) = verify_slots-true n slots voted (ground arith) in
    (t ∷ ts, rw e, (ground arith, a))

pub mem_new :
    (voted : Voted) (ts : List Transaction) (j : Bytes)
    → All (λ t. voted t.sender_public_key ≡ false) ts
    → mem j (keys ts) ≡ true
    → voted j ≡ false
mem_new voted [] j a h = cc
mem_new voted (t ∷ ts) j a h = elim (Bool-cases (bytes_eq t.sender_public_key j)) [
  | inl e ↦ rw (← eq_of_bytes_eq _ _ e) a.0
  | inr e ↦ mem_new voted ts j a.1 (ground arith)
]

-- No key stands in two blocks.
abbrev pub Disjoint : List Block → Type 0
Disjoint [] = Unit {0}
Disjoint (b ∷ bs) = ((j : Bytes) → block_has j b ≡ true → chain_has j bs ≡ false) × Disjoint bs

-- The voters are exactly the keys in the chain's blocks, each in one block; there is a head block.
pub record IsConsistent (c : Blockchain) : Type 0 where
  pub exact : (j : Bytes) → c.voted j ≡ chain_has j c.blocks
  pub disjoint : Disjoint c.blocks
  pub whole : All (λ b. length b.transaction_array ≡ num_transactions_per_block) c.blocks
  pub headed : 1 ≤ length c.blocks
  pub counted : 1 ≤ c.chain_length
