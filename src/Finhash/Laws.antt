-- ===== src/Finhash/Laws.antt =====
-- What `calculate_finhash` of processor.cpp computes, and what its hash does not depend on.
use blockchain_voting.Base.{
  ℕ, zero, suc, ◌+◌, ◌*◌, ◌/◌, ◌^◌, ◌≤◌, ◌<◌, ◌≡◌, sym, ap, ◌∙◌, not, some, [], ◌∷◌, ◌++◌, arith,
  ◌==◌, length, take, take_of_length-le, ok, ◌>>=◌, ◌>>◌, assert, >>=-eq-ok, ok-injective, Bytes,
}
use native.Mathlib.Nat.{pow-suc}
use blockchain_voting.Memory.{CharPtr, buf, read_bytes, first_char, public_key_size}
use blockchain_voting.Memory.Laws.{read_prefix-eq-take}
use blockchain_voting.Block.{Block, Transaction, Slots}
use blockchain_voting.Merkle.{calculate_merkle_root}
use blockchain_voting.Merkle.Tree.{tree_hash, same_leaves, calculate_merkle_root-eq}
use blockchain_voting.Finhash.{IsSha1, sha_digest_length, le_bytes, hashed_bytes, calculate_finhash}

-- The number that the bytes stand for.
abbrev pub of_le_bytes : Bytes → ℕ
of_le_bytes [] = 0
of_le_bytes (b ∷ bs) = b + 256 * of_le_bytes bs

pub of_le_bytes-le_bytes : (n v : ℕ) → v < 256 ^ n → of_le_bytes (le_bytes n v) ≡ v
unfolding le_bytes
of_le_bytes-le_bytes zero v h = omega arith
of_le_bytes-le_bytes (suc n) v h =
    let small : v / 256 < 256 ^ n = omega (arith, pow-suc 256 n) in
    omega (arith, of_le_bytes-le_bytes n (v / 256) small)

append_cancel : (xs ys zs : Bytes) → xs ++ ys ≡ xs ++ zs → ys ≡ zs
append_cancel [] ys zs h = h
append_cancel (x ∷ xs) ys zs h = append_cancel xs ys zs (ground arith)

-- Each value of `magic` gives SHA1 another input: two attempts at one block never hash the same
-- bytes, as long as `magic` has not wrapped.
pub hashed_bytes-injective :
    (root : Bytes) (m n : ℕ)
    → m < 2 ^ 64
    → n < 2 ^ 64
    → hashed_bytes root m ≡ hashed_bytes root n
    → m ≡ n
hashed_bytes-injective root m n h k e =
    sym (of_le_bytes-le_bytes 8 m h)
    ∙ ap of_le_bytes (append_cancel root _ _ e)
    ∙ of_le_bytes-le_bytes 8 n k

abbrev pub digests : Block → CharPtr × CharPtr
digests b = (b.merkle_root, b.finhash)

-- The merkle root of a block whose slot 0 holds `t`.
abbrev pub root_of : (Bytes → Bytes) → Transaction → Bytes
root_of sha1 t = tree_hash sha1 (same_leaves 3 (sha1 (take public_key_size t.sender_public_key)))

module _ (sha1 : Bytes → Bytes) (law : IsSha1 sha1) where
  read_digest : (m : Bytes) → read_bytes (buf (sha1 m)) sha_digest_length ≡ ok (sha1 m)
  unfolding read_bytes
  read_digest m =
      let len = law.length_digest m in
      read_prefix-eq-take sha_digest_length (sha1 m) (omega arith)
      ∙ ap ok (take_of_length-le sha_digest_length (sha1 m) (omega arith))

  module _ (b : Block) (t : Transaction) (slots : Slots)
      (holds : b.transaction_array ≡ some t ∷ slots)
      (long : public_key_size ≤ length t.sender_public_key) where
    -- With a transaction in slot 0, `calculate_finhash` hashes the merkle root and `magic`, unless
    -- the root begins with a zero byte: then its assertion fails.
    pub calculate_finhash-eq : calculate_finhash sha1 b ≡ (
        first_char (buf (root_of sha1 t)) >>= λ first.
        assert (not (first == 0))
        >> ok (record b {
          merkle_root = buf (root_of sha1 t);
          finhash = buf (sha1 (hashed_bytes (root_of sha1 t) b.magic));
        }))
    unfolding calculate_finhash
    calculate_finhash-eq = rw (calculate_merkle_root-eq sha1 b t slots holds long, read_digest)

  -- The hash of a block is blind to what is voted. Two blocks with one `magic`, whose keys in slot
  -- 0 agree in 20 characters, get one merkle root and one hash, or both fail the assertion: the
  -- votes, the timestamps and the seven other transactions do not count.
  pub calculate_finhash_blind :
      (b c : Block) (t u : Transaction) (slots slots' : Slots)
      → b.transaction_array ≡ some t ∷ slots
      → c.transaction_array ≡ some u ∷ slots'
      → public_key_size ≤ length t.sender_public_key
      → public_key_size ≤ length u.sender_public_key
      → take public_key_size t.sender_public_key ≡ take public_key_size u.sender_public_key
      → b.magic ≡ c.magic
      → (calculate_finhash sha1 b >>= λ d. ok (digests d))
        ≡ (calculate_finhash sha1 c >>= λ d. ok (digests d))
  calculate_finhash_blind b c t u slots slots' hb hc lt lu same magic =
      rw (calculate_finhash-eq b t slots hb lt, calculate_finhash-eq c u slots' hc lu, same, magic)
        (ground arith)

-- `calculate_finhash` changes nothing of a block but its two hashes.
pub calculate_finhash-keeps :
    (sha1 : Bytes → Bytes) (w w' : Block)
    → calculate_finhash sha1 w ≡ ok w'
    → (root : CharPtr) × (f : CharPtr) × (w' ≡ record w { merkle_root = root; finhash = f })
unfolding calculate_finhash
calculate_finhash-keeps sha1 w w' h =
    let (root, _, f) = >>=-eq-ok (calculate_merkle_root sha1 w) _ h in
    let (first, _, g) = >>=-eq-ok (first_char (buf root)) _ f in
    let (_, _, k) = >>=-eq-ok (assert (not (first == 0))) _ g in
    let (copied, _, l) = >>=-eq-ok (read_bytes (buf root) sha_digest_length) _ k in
    (buf root, buf (sha1 (hashed_bytes copied w.magic)), sym (ok-injective l))
