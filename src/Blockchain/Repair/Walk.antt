-- ===== src/Blockchain/Repair/Walk.antt =====
-- The walk to a common ancestor in `repair_blockchain` of processor.cpp.
use blockchain_voting.Base.{
  ℕ, zero, suc, ◌≡◌, ap, Bool, true, Option, none, some, List, [], ◌∷◌, ◌++◌, arith, ok, read,
  >>=-eq-ok, Bytes,
}
use blockchain_voting.Memory.{buf, first_char}
use blockchain_voting.Hash.{meets_target}
use blockchain_voting.Hash.Nibbles.{meets_target_iff, meets_target_short}
use blockchain_voting.Block.{Block, Transaction}
use blockchain_voting.SyncQueue.{Queue}
use blockchain_voting.Blockchain.{Blockchain, check_if_block_in_chain}
use blockchain_voting.Blockchain.Repair.{
  Fetch, get_parent_block_from_neighbor, find_ancestor, repair_blockchain,
}

first_char_mined : (hash : Bytes) → meets_target hash ≡ true → first_char (buf hash) ≡ ok 0
unfolding first_char
first_char_mined [] h = ground (arith, meets_target_short [])
first_char_mined (x ∷ []) h = ground (arith, meets_target_short (x ∷ []))
first_char_mined (x ∷ y ∷ hash) h = ap ok ((meets_target_iff x y hash).0 h).0

module _ (fetch : Fetch) where
  -- The assertion on `finhash[0]` fails for every block that the mining loop can produce: where the
  -- hash meets the target, the parent is never fetched.
  pub get_parent_block_from_neighbor_mined :
      (b : Block) (hash : Bytes) (parent : Option Block)
      → b.finhash ≡ buf hash
      → meets_target hash ≡ true
      → ¬ (get_parent_block_from_neighbor fetch b ≡ ok parent)
  unfolding get_parent_block_from_neighbor
  get_parent_block_from_neighbor_mined b hash parent e mined h =
      let zero_first : first_char b.finhash ≡ ok 0 = rw e (first_char_mined hash mined) in
      ground arith

  -- `get_parent_block_from_neighbor` never returns `NULL`.
  get_parent_some : (b : Block) → ¬ (get_parent_block_from_neighbor fetch b ≡ ok none)
  unfolding get_parent_block_from_neighbor
  get_parent_some b h = ground arith

  module _ (stack : ℕ → Option Block) (c : Blockchain) (b : Block) where
    find_ancestor-next :
        (n : ℕ) (add : List Block) (r : Option (ℕ × List Block))
        → check_if_block_in_chain c b ≡ ok none
        → find_ancestor fetch stack (suc n) c b add ≡ ok r
        → find_ancestor fetch stack n c b (add ++ b ∷ []) ≡ ok r
    unfolding find_ancestor
    find_ancestor-next n add r e h =
        let (inner, s, f) = >>=-eq-ok (read (stack n)) _ (rw e at h) in
        let (parent, p, g) = >>=-eq-ok (get_parent_block_from_neighbor fetch inner) _ f in
        let some_parent = get_parent_some inner in ground arith

    -- The walk ends only at once, at the block that it starts from.
    pub find_ancestor-ok :
        (fuel : ℕ) (blocks_to_add : List Block) (r : Option (ℕ × List Block))
        → find_ancestor fetch stack fuel c b blocks_to_add ≡ ok r
        → (i : ℕ) × (check_if_block_in_chain c b ≡ ok (some i)) × (r ≡ some (i, blocks_to_add))
    unfolding find_ancestor
    find_ancestor-ok zero add r h = cc
    find_ancestor-ok (suc n) add r h =
        let (it, e, f) = >>=-eq-ok (check_if_block_in_chain c b) _ h in
        elim it
            as (λ it.
              check_if_block_in_chain c b ≡ ok it
              → (i : ℕ) × (check_if_block_in_chain c b ≡ ok (some i)) × (r ≡ some (i, add))) [
                | some i ↦ λ e. (i, e, ground arith)
                | none ↦ λ e.
                    let (j, g, _) =
                      find_ancestor-ok n (add ++ b ∷ []) r (find_ancestor-next n add r e h) in
                    cc
              ]
          e

    -- A block that is not in the chain is never adopted: whatever the peers answer, whatever the
    -- variable that is read before it is written holds, and however many rounds the loop is given,
    -- `repair_blockchain` gives no result.
    pub repair_blockchain_absent :
        (fuel : ℕ) (q : Queue Transaction) (r : Blockchain × Queue Transaction × Bool)
        → check_if_block_in_chain c b ≡ ok none
        → ¬ (repair_blockchain fetch stack fuel c q b ≡ ok r)
    unfolding repair_blockchain
    repair_blockchain_absent fuel q r absent h =
        let (found, e, f) = >>=-eq-ok (find_ancestor fetch stack fuel c b []) _ h in
        let (i, g, _) = find_ancestor-ok fuel [] found e in cc
