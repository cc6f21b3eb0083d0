-- ===== src/Blockchain/Lookup.antt =====
-- The searches of `blockchain` (processor.cpp): both `get_block` and `check_if_block_in_chain`.
use blockchain_voting.Base.{
  ℕ, zero, suc, ◌+◌, ◌≤◌, ◌<◌, ◌≡◌, refl, sym, ap, ◌∙◌, Bool, true, false, Option, none, some, List,
  [], ◌∷◌, arith, if◌then◌else◌, ==_refl, length, Result, ok, err, ◌>>=◌, >>=-eq-ok, Bytes,
  bytes_eq_refl,
}
use blockchain_voting.Memory.{CharPtr, buf, same_hash, public_key_size}
use blockchain_voting.Memory.Laws.{same_hash-eq}
use blockchain_voting.Block.{Block}
use blockchain_voting.Blockchain.Adding.{add_block-inv}
use blockchain_voting.Blockchain.{
  Blockchain, find_number, find_hash, find_position, later, get_block_by_number, get_block_by_hash,
  check_if_block_in_chain, add_block, get_head_block,
}

-- The block at an iterator.
abbrev pub block_at : List Block → Option ℕ → Option Block
block_at bs none = none
block_at [] (some i) = none
block_at (b ∷ bs) (some zero) = some b
block_at (b ∷ bs) (some (suc i)) = block_at bs (some i)

block_at-later :
    (b : Block) (bs : List Block) (i : Option ℕ) → block_at (b ∷ bs) (later i) ≡ block_at bs i
block_at-later b [] none = refl
block_at-later b [] (some i) = refl
block_at-later b (x ∷ bs) none = refl
block_at-later b (x ∷ bs) (some i) = refl

find_hash-eq :
    (hash : CharPtr) (bs : List Block)
    → find_hash hash bs ≡ (find_position hash bs >>= λ i. ok (block_at bs i))
unfolding find_hash find_position
find_hash-eq hash [] = refl
find_hash-eq hash (b ∷ bs) =
    elim (same_hash b.finhash hash)
      as (λ r. (r >>= λ same. if same then ok (some b) else find_hash hash bs) ≡ (
        (r >>= λ same. if same then ok (some 0) else (find_position hash bs >>= λ i. ok (later i)))
        >>= λ i. ok (block_at (b ∷ bs) i))) [
          | err e ↦ refl
          | ok true ↦ refl
          | ok false ↦ rw (find_hash-eq hash bs) (shift (find_position hash bs))
        ]
  where
    shift :
        (r : Result (Option ℕ))
        → (r >>= λ i. ok (block_at bs i))
          ≡ ((r >>= λ i. ok (later i)) >>= λ i. ok (block_at (b ∷ bs) i))
    shift (err e) = refl
    shift (ok i) = ap ok (sym (block_at-later b bs i))

-- `get_block` by hash gives the block at the iterator that `check_if_block_in_chain` gives for that
-- hash, `NULL` where that is `end()`, and goes wrong where that does.
pub get_block_by_hash-eq :
    (c : Blockchain) (b : Block)
    → get_block_by_hash c b.finhash
      ≡ (check_if_block_in_chain c b >>= λ i. ok (block_at c.blocks i))
unfolding get_block_by_hash check_if_block_in_chain
get_block_by_hash-eq c b = find_hash-eq b.finhash c.blocks

later-some : (j : Option ℕ) (i : ℕ) → later j ≡ some i → (k : ℕ) × (j ≡ some k) × (i ≡ suc k)
later-some none i h = cc
later-some (some k) i h = (k, refl, ground arith)

-- An iterator at distance `i` stands at a block whose hash is the one looked for.
abbrev pub Found : CharPtr → List Block → ℕ → Type 0
Found hash bs i =
    (i < length bs)
    × ((b : Block) × (block_at bs (some i) ≡ some b) × (same_hash b.finhash hash ≡ ok true))

pub find_position-Found :
    (hash : CharPtr) (bs : List Block) (i : ℕ)
    → find_position hash bs ≡ ok (some i)
    → Found hash bs i
unfolding find_position
find_position-Found hash [] i h = cc
find_position-Found hash (b ∷ bs) i h =
    let (same, e, f) = >>=-eq-ok (same_hash b.finhash hash) _ h in
    go (find_position-Found hash bs) same i e f
  where
    go :
        ((k : ℕ) → find_position hash bs ≡ ok (some k) → Found hash bs k)
        → (same : Bool) (i : ℕ) → same_hash b.finhash hash ≡ ok same
        → (if same then ok (some 0) else (find_position hash bs >>= λ j. ok (later j)))
          ≡ ok (some i)
        → Found hash (b ∷ bs) i
    go ih true zero e f = (omega arith, (b, refl, e))
    go ih true (suc i) e f = cc
    go ih false i e f =
        let (j, p, q) = >>=-eq-ok (find_position hash bs) _ f in
        let (k, r, u) = later-some j i (ground arith) in
        let (lt, found) = ih k (p ∙ ap ok r) in rw u (omega arith, found)

-- A block just added, with a hash of 20 bytes or more, is found by its hash and by its number, and
-- is the head.
pub get_block-add_block :
    (c c' : Blockchain) (b b' : Block) (hash : Bytes)
    → add_block c b ≡ ok (c', b')
    → b.finhash ≡ buf hash
    → public_key_size ≤ length hash
    → (get_block_by_hash c' (buf hash) ≡ ok (some b'))
      × (get_block_by_number c' (c.chain_length + 1) ≡ ok (some b'))
      × (get_head_block c' ≡ ok b')
unfolding get_block_by_hash get_block_by_number find_hash find_number get_head_block
get_block-add_block c c' b b' hash h e long =
    let (ts, p, q, r) = add_block-inv c c' b b' h in
    rw (q, r) (rw (e, same_hash-eq hash hash long long, bytes_eq_refl), rw ==_refl, ground arith)
