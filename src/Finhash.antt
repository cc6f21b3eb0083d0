-- ===== src/Finhash.antt =====
-- processor.cpp, `block::calculate_finhash`.
pub mod Laws
mod Examples
use blockchain_voting.Base.{
  ℕ, zero, suc, ◌+◌, ◌/◌, ◌%◌, ◌≡◌, not, [], ◌∷◌, ◌++◌, ◌==◌, length, Result, ok, ◌>>=◌, ◌>>◌,
  assert, Bytes,
}
use blockchain_voting.Memory.{buf, read_bytes, first_char}
use blockchain_voting.Block.{Block}
use blockchain_voting.Merkle.{calculate_merkle_root}

-- SHA_DIGEST_LENGTH
abbrev pub sha_digest_length : ℕ
sha_digest_length = 20

-- What the code relies on of OpenSSL's `SHA1`: the digest has 20 bytes.
pub record IsSha1 (sha1 : Bytes → Bytes) : Type 0 where
  pub length_digest : (m : Bytes) → length (sha1 m) ≡ sha_digest_length

-- The `n` bytes of an unsigned integer in memory, lowest first.
unfoldable pub le_bytes : ℕ → ℕ → Bytes
le_bytes zero v = []
le_bytes (suc n) v = v % 256 ∷ le_bytes n (v / 256)

-- What the last SHA1 of `calculate_finhash` is taken of: the root, then `magic`.
abbrev pub hashed_bytes : Bytes → ℕ → Bytes
hashed_bytes root magic = root ++ le_bytes 8 magic

module _ (sha1 : Bytes → Bytes) where
  unfoldable pub calculate_finhash : Block → Result Block
  calculate_finhash b = do
    data_to_hash ← calculate_merkle_root sha1 b
    first ← first_char (buf data_to_hash)
    assert (not (first == 0))
    copied ← read_bytes (buf data_to_hash) sha_digest_length
    ok (record b {
      merkle_root = buf data_to_hash;
      finhash = buf (sha1 (hashed_bytes copied b.magic));
    })
