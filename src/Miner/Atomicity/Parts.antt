-- ===== src/Miner/Atomicity/Parts.antt =====
-- The second half of a round of `processing_thread` (peer.cpp), part by part.
use blockchain_voting.Base.{
  ℕ, suc, ◌+◌, ◌%◌, ◌^◌, ◌≡◌, refl, sym, ap, ◌∙◌, inl, inr, Bool, true, false, Option, some, List,
  Bool-cases, Result, ok, ◌>>=◌, read, >>=-eq-ok, ok-injective, Bytes,
}
use blockchain_voting.Memory.{read_bytes, public_key_size}
use blockchain_voting.Hash.{meets_target}
use blockchain_voting.Block.{Block, Transaction, read_slots, rounds}
use blockchain_voting.Finhash.{calculate_finhash}
use blockchain_voting.Miner.{
  Miner, handle_transaction, has_key, mine, try_magic, finish_block, second_half, num_magic_to_try,
}
use blockchain_voting.Miner.Atomicity.{consider, attempted}

abbrev pub finishing : Result Miner → Result (Option Miner)
finishing r = r >>= λ m. ok (some m)

pub second_half-full :
    (sha1 : Bytes → Bytes) (m : Miner)
    → m.quotafull ≡ true
    → second_half sha1 m ≡ finishing (try_magic sha1 num_magic_to_try m)
unfolding second_half mine
second_half-full sha1 m full = rw full refl

module _ (sha1 : Bytes → Bytes) (m : Miner) (t : Transaction) where
  pub handle_transaction-old :
      m.bc.voted t.sender_public_key ≡ true → handle_transaction sha1 m t ≡ ok m
  unfolding handle_transaction
  handle_transaction-old old = rw old refl

  pub handle_transaction-new :
      (ts : List Transaction) (m' : Miner)
      → m.bc.voted t.sender_public_key ≡ false
      → read_slots (rounds m.working_block.max_ind) m.working_block.transaction_array ≡ ok ts
      → consider m t ts ≡ ok m'
      → handle_transaction sha1 m t ≡ mine sha1 m'
  unfolding handle_transaction consider
  handle_transaction-new ts m' new read e = elim (Bool-cases (has_key t ts)) [
    | inl twice ↦ rw (new, read, twice) (ap (mine sha1) (ok-injective (rw twice at e)))
    | inr absent ↦ rw (new, read, absent, (rw absent at e)) refl
  ]

-- The block of the next attempt, before it is hashed.
abbrev with_next_magic : Block → Block
with_next_magic b = record b { magic = (b.magic + 1) % 2 ^ 64 }

module _ (sha1 : Bytes → Bytes) (m : Miner) (n : ℕ) (w : Block) where
  abbrev after_test : Bool → Result Miner
  after_test hit = elim hit [
    | true ↦ finish_block sha1 m w
    | false ↦ try_magic sha1 n (record m { working_block = w })
  ]

  try_magic-after_test :
      (hash : Bytes) (hit : Bool)
      → calculate_finhash sha1 (with_next_magic m.working_block) ≡ ok w
      → read_bytes w.finhash public_key_size ≡ ok hash
      → meets_target hash ≡ hit
      → try_magic sha1 (suc n) m ≡ after_test hit
  unfolding try_magic
  try_magic-after_test hash hit f k e = rw (f, k) (ap after_test e)

  attempted-inv :
      (hit : Bool)
      → attempted sha1 m.working_block ≡ ok (w, hit)
      → (hash : Bytes) × (calculate_finhash sha1 (with_next_magic m.working_block) ≡ ok w)
        × (read_bytes w.finhash public_key_size ≡ ok hash)
        × (meets_target hash ≡ hit)
  unfolding attempted
  attempted-inv hit e =
      let (w', f, g) = >>=-eq-ok (calculate_finhash sha1 (with_next_magic m.working_block)) _ e in
      let (hash, k, l) = >>=-eq-ok (read_bytes w'.finhash public_key_size) _ g in
      let same : w' ≡ w = ap (λ p. p.0) (ok-injective l) in
      (
        hash,
        f ∙ ap ok same,
        ap (λ x. read_bytes x.finhash public_key_size) (sym same) ∙ k,
        ap (λ p. p.1) (ok-injective l),
      )

  pub try_magic-attempted :
      (hit : Bool)
      → attempted sha1 m.working_block ≡ ok (w, hit)
      → try_magic sha1 (suc n) m ≡ after_test hit
  try_magic-attempted hit e =
      let (hash, f, k, l) = attempted-inv hit e in try_magic-after_test hash hit f k l

pub mine-full :
    (sha1 : Bytes → Bytes) (m : Miner)
    → m.quotafull ≡ true
    → mine sha1 m ≡ try_magic sha1 num_magic_to_try m
unfolding mine
mine-full sha1 m full = rw full refl

pub mine-room : (sha1 : Bytes → Bytes) (m : Miner) → m.quotafull ≡ false → mine sha1 m ≡ ok m
unfolding mine
mine-room sha1 m room = rw room refl

pub try_magic-zero : (sha1 : Bytes → Bytes) (m : Miner) → try_magic sha1 0 m ≡ ok m
unfolding try_magic
try_magic-zero sha1 m = refl
