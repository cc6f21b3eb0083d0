-- ===== src/Miner/Sending.antt =====
-- That a mined block can be sent: `finish_block` of the mining loop (peer.cpp) and `encode_block`
-- (encoding_helpers.cpp).
use blockchain_voting.Base.{
  ℕ, ◌+◌, ◌≤◌, ◌≡◌, refl, ap, ◌∙◌, List, [], ◌∷◌, map, arith, length, take, take_of_length-le,
  Result, ok, Bytes,
}
use blockchain_voting.Memory.{buf, read_bytes, c_string, public_key_size}
use blockchain_voting.Memory.Laws.{read_prefix-eq-take}
use blockchain_voting.Block.{Block, Transaction, read_slots}
use blockchain_voting.Finhash.{IsSha1, hashed_bytes}
use blockchain_voting.Finhash.Laws.{root_of}
use blockchain_voting.Blockchain.{Blockchain}
use blockchain_voting.Blockchain.Adding.{numbered}
use blockchain_voting.Codec.{BlockMsg, encode_block}
use blockchain_voting.Client.{SinglePeerClient}
use blockchain_voting.Client.Messages.{to_each}
use blockchain_voting.Miner.Mining.{hashed}

-- The block as it goes on the chain.
abbrev pub on_head : Block → Block → Block
on_head head w = record w { max_ind = 0; prev_block_sha1 = head.finhash }

-- The messages of a broadcast to the peers.
abbrev pub each_to : BlockMsg → List SinglePeerClient → List (Bytes × BlockMsg)
each_to m ps = map (λ p. (p.addr, m)) ps

pub to_each-ok :
    (r : Result BlockMsg) (m : BlockMsg) (ps : List SinglePeerClient)
    → r ≡ ok m
    → to_each r ps ≡ ok (each_to m ps)
to_each-ok r m [] e = refl
to_each-ok r m (p ∷ ps) e = rw e refl

module _ (sha1 : Bytes → Bytes) (law : IsSha1 sha1) (t : Transaction) where
  read_sha1 : (m : Bytes) → read_bytes (buf (sha1 m)) public_key_size ≡ ok (sha1 m)
  unfolding read_bytes
  read_sha1 m =
      let len = law.length_digest m in
      read_prefix-eq-take public_key_size (sha1 m) (omega arith)
      ∙ ap ok (take_of_length-le public_key_size (sha1 m) (omega arith))

  pub encode_block-hashed :
      (c : Blockchain) (w head : Block) (magic : ℕ) (p key : Bytes)
      → head.finhash ≡ buf p
      → public_key_size ≤ length p
      → c_string w.verifier_public_key ≡ ok key
      → (m : BlockMsg) × (encode_block (numbered c (on_head head (hashed sha1 t w magic))) ≡ ok m)
  unfolding encode_block read_slots
  encode_block-hashed c w head magic p key at long verifier =
      let prev : read_bytes head.finhash public_key_size ≡ ok (take public_key_size p) =
        rw at (unfold read_bytes in read_prefix-eq-take public_key_size p long) in
      let message : BlockMsg = record {
        block_number = c.chain_length + 1;
        prev_block_sha1 = take public_key_size p;
        magic = magic;
        merkle_root = root_of sha1 t;
        transaction_msg = [];
        num_transactions = 0;
        verifier_public_key = key;
        final_hash = sha1 (hashed_bytes (root_of sha1 t) magic);
      } in
      let final = read_sha1 (hashed_bytes (root_of sha1 t) magic) in
      (message, rw (prev, read_sha1, verifier, final))
