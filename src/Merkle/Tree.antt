-- ===== src/Merkle/Tree.antt =====
-- The level-by-level loop of `calculate_merkle_root` against the tree of hashes.
use blockchain_voting.Base.{
  ℕ, zero, suc, ◌+◌, ◌≤◌, ◌≡◌, refl, ap, ◌∙◌, some, List, [], ◌∷◌, ◌++◌, arith, length, take,
  replicate, length-append, take-append-le, ok, ◌>>=◌, >>=-eq-ok, ok-injective, Result-cases, inl,
  inr, Bytes,
}
use Prim.Native.Nat.add
use blockchain_voting.Memory.{buf, read_bytes, public_key_size}
use blockchain_voting.Memory.Laws.{read_prefix-eq-take}
use blockchain_voting.Block.{Slots, Transaction, Block}
use blockchain_voting.Merkle.{leaf_hashes, pair_hashes, root_loop, calculate_merkle_root}

-- A perfect binary tree of the given height.
pub data Tree : ℕ → Type 0 where
  leaf : Bytes → Tree zero
  node : {n : ℕ} → Tree n → Tree n → Tree (suc n)

abbrev pub leaves : {n : ℕ} → Tree n → List Bytes
leaves (leaf x) = x ∷ []
leaves (node l r) = leaves l ++ leaves r

-- The tree that the first loop builds: eight times the hash of the same key.
abbrev pub same_leaves : (n : ℕ) → Bytes → Tree n
same_leaves zero x = leaf x
same_leaves (suc n) x = node (same_leaves n x) (same_leaves n x)

read_key :
    (key : Bytes)
    → public_key_size ≤ length key
    → read_bytes (buf (key ++ 0 ∷ [])) public_key_size ≡ ok (take public_key_size key)
unfolding read_bytes
read_key key h =
    read_prefix-eq-take public_key_size (key ++ 0 ∷ []) (omega (arith, length-append key (0 ∷ [])))
    ∙ ap ok (take-append-le public_key_size key (0 ∷ []) h)

module _ (sha1 : Bytes → Bytes) where
  -- The hash of a tree: the hash of its two halves' hashes, one after the other.
  abbrev pub tree_hash : {n : ℕ} → Tree n → Bytes
  tree_hash (leaf x) = x
  tree_hash (node l r) = sha1 (tree_hash l ++ tree_hash r)

  -- One level less: the lowest nodes become leaves.
  collapse : {n : ℕ} → Tree (suc n) → Tree n
  collapse {n = zero} (node (leaf x) (leaf y)) = leaf (sha1 (x ++ y))
  collapse {n = suc n} (node l r) = node (collapse l) (collapse r)

  tree_hash-collapse : {n : ℕ} (t : Tree (suc n)) → tree_hash (collapse t) ≡ tree_hash t
  unfolding collapse
  tree_hash-collapse {n = zero} (node (leaf x) (leaf y)) = refl
  tree_hash-collapse {n = suc n} (node l r) = rw (tree_hash-collapse l, tree_hash-collapse r)

  pair_hashes-append :
      (xs ys zs : List Bytes)
      → pair_hashes sha1 xs ≡ ok zs
      → pair_hashes sha1 (xs ++ ys) ≡ (pair_hashes sha1 ys >>= λ new. ok (zs ++ new))
  unfolding pair_hashes
  pair_hashes-append [] ys zs h = ground arith
  pair_hashes-append (x ∷ []) ys zs h = cc
  pair_hashes-append (x ∷ y ∷ xs) ys zs h =
      let (hs, e, f) = >>=-eq-ok (pair_hashes sha1 xs) _ h in
      rw (pair_hashes-append xs ys hs e, ← ok-injective f)
        (elim (Result-cases (pair_hashes sha1 ys)) [
          | inl (new, g) ↦ rw g refl
          | inr (reason, g) ↦ rw g refl
        ])

  pair_hashes-leaves :
      {n : ℕ} (t : Tree (suc n)) → pair_hashes sha1 (leaves t) ≡ ok (leaves (collapse t))
  unfolding collapse
  pair_hashes-leaves {n = zero} (node (leaf x) (leaf y)) = unfold pair_hashes in refl
  pair_hashes-leaves {n = suc n} (node l r) =
      rw (pair_hashes-append (leaves l) (leaves r) _ (pair_hashes-leaves l), pair_hashes-leaves r)

  root_loop-cons :
      (fuel : ℕ) (old new : List Bytes)
      → pair_hashes sha1 old ≡ ok new
      → 2 ≤ length new
      → root_loop sha1 (suc fuel) old ≡ root_loop sha1 fuel new
  unfolding root_loop
  root_loop-cons fuel old [] e h = absurd (omega arith)
  root_loop-cons fuel old (x ∷ []) e h = absurd (omega arith)
  root_loop-cons fuel old (x ∷ y ∷ more) e h = rw e

  leaves-pos : {n : ℕ} (t : Tree n) → 1 ≤ length (leaves t)
  leaves-pos (leaf x) = omega arith
  leaves-pos (node l r) = omega (arith, length-append (leaves l) (leaves r), leaves-pos l)

  leaves-two : {n : ℕ} (t : Tree (suc n)) → 2 ≤ length (leaves t)
  leaves-two (node l r) =
      omega (arith, length-append (leaves l) (leaves r), leaves-pos l, leaves-pos r)

  -- On the leaves of any perfect tree of height `n + 1` the loop ends within `n + 1` rounds, reads
  -- no hash that is not there, and returns the hash of the tree.
  pub root_loop-eq-tree_hash :
      (n spare : ℕ) (t : Tree (suc n))
      → root_loop sha1 (suc n + spare) (leaves t) ≡ ok (tree_hash t)
  root_loop-eq-tree_hash n spare t = rw add.suc (go n t)
    where
      go :
          (n : ℕ) (t : Tree (suc n))
          → root_loop sha1 (suc (n + spare)) (leaves t) ≡ ok (tree_hash t)
      go zero (node (leaf x) (leaf y)) = unfold root_loop pair_hashes in refl
      go (suc n) (node l r) =
          let t : Tree (suc (suc n)) = node l r in
          root_loop-cons (suc n + spare) (leaves t) _ (pair_hashes-leaves t)
            (leaves-two (collapse t))
          ∙ rw add.suc (go n (collapse t) ∙ ap ok (tree_hash-collapse t))

  leaf_hashes-some :
      (n : ℕ) (t : Transaction) (slots : Slots) (data_to_hash : Bytes)
      → read_bytes (buf (t.sender_public_key ++ 0 ∷ [])) public_key_size ≡ ok data_to_hash
      → leaf_hashes sha1 n (some t ∷ slots) ≡ ok (replicate n (sha1 data_to_hash))
  unfolding leaf_hashes
  leaf_hashes-some zero t slots d e = refl
  leaf_hashes-some (suc n) t slots d e = rw (e, leaf_hashes-some n t slots d e)

  -- The merkle root of a block is the hash of the perfect tree over eight copies of the hash of the
  -- first 20 characters of the key in slot 0.
  pub calculate_merkle_root-eq :
      (b : Block) (t : Transaction) (slots : Slots)
      → b.transaction_array ≡ some t ∷ slots
      → public_key_size ≤ length t.sender_public_key
      → calculate_merkle_root sha1 b
        ≡ ok (tree_hash (same_leaves 3 (sha1 (take public_key_size t.sender_public_key))))
  unfolding calculate_merkle_root
  calculate_merkle_root-eq b t slots e h =
      rw (e, leaf_hashes-some 8 t slots _ (read_key t.sender_public_key h))
        (root_loop-eq-tree_hash 2 5
          (same_leaves 3 (sha1 (take public_key_size t.sender_public_key))))
