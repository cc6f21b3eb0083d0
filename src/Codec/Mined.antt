-- ===== src/Codec/Mined.antt =====
-- Where encoding_helpers.cpp goes wrong on blocks that peer.cpp and processor.cpp make.
use blockchain_voting.Blockchain.{TwoBytes}
use blockchain_voting.Base.{
  >>=-eq-ok, ok-injective, map, ap, read, ℕ, ◌-◌, ◌<◌, ◌≡◌, refl, sym, ◌↔◌, some, List, [], ◌∷◌,
  ◌++◌, arith, length, ok, err, null_pointer, out_of_bounds, codes,
}
use native.Mathlib.Decide.{dec_lt}
use blockchain_voting.Memory.{c_string, read_bytes, public_key_size}
use blockchain_voting.Memory.Laws.{read_prefix_short}
use blockchain_voting.Block.{Block, Transaction, rounds, read_slots, num_transactions_per_block}
use blockchain_voting.Blockchain.{starting_block}
use blockchain_voting.Codec.{BlockMsg, decode_block, encode_block, encode_transaction}
use blockchain_voting.Codec.RoundTrip.{decode_slots_overflow, decode_block-ok}

-- `decode_block` writes behind the end of its array exactly for a message of more than eight
-- transactions, whatever `num_transactions` says.
pub decode_block_overflow :
    (m : BlockMsg)
    → (decode_block m ≡ err out_of_bounds) ↔ (num_transactions_per_block < length m.transaction_msg)
unfolding decode_block
decode_block_overflow m = (
  λ h. elim (dec_lt num_transactions_per_block (length m.transaction_msg)) [
    | yes over ↦ over
    | no fits ↦
        let fine =
          decode_block-ok m (num_transactions_per_block - length m.transaction_msg) (omega arith) in
        absurd (cc)
  ],
  λ over. rw (decode_slots_overflow [] m.transaction_msg num_transactions_per_block over),
)

-- The transactions of a block's message are those that the loop reads.
pub encode_block-read :
    (b : Block) (m : BlockMsg)
    → encode_block b ≡ ok m
    → (ts : List Transaction) × (read_slots (rounds b.max_ind) b.transaction_array ≡ ok ts)
      × (m.transaction_msg ≡ map encode_transaction ts)
unfolding encode_block
encode_block-read b m h =
    let (n, _, h1) = >>=-eq-ok (read b.block_number) _ h in
    let (prev, _, h2) = >>=-eq-ok (read_bytes b.prev_block_sha1 public_key_size) _ h1 in
    let (root, _, h3) = >>=-eq-ok (read_bytes b.merkle_root public_key_size) _ h2 in
    let (key, _, h4) = >>=-eq-ok (c_string b.verifier_public_key) _ h3 in
    let (final, _, h5) = >>=-eq-ok (read_bytes b.finhash public_key_size) _ h4 in
    let (ts, e, h6) = >>=-eq-ok (read_slots (rounds b.max_ind) b.transaction_array) _ h5 in
    (ts, e, sym (ap (λ x. x.transaction_msg) (ok-injective h6)))

-- With `max_ind` at 0 a block is sent without its transactions.
pub encode_block_empty :
    (b : Block) (m : BlockMsg)
    → b.max_ind ≡ 0
    → encode_block b ≡ ok m
    → (m.transaction_msg ≡ []) × (m.num_transactions ≡ 0)
unfolding encode_block read_slots
encode_block_empty b m zero_ind h = ground arith

-- The first block cannot be sent: its previous hash and its merkle root are `NULL`.
pub encode_block-starting_block :
    (rest : TwoBytes) → encode_block (starting_block rest) ≡ err null_pointer
unfolding encode_block read_bytes
encode_block-starting_block rest = refl

-- Nor can a block right on top of it: its previous hash is that buffer of 15 bytes, and 20 bytes
-- are read from it.
pub encode_block_second :
    (b : Block) (n : ℕ) (rest : TwoBytes)
    → b.block_number ≡ some n
    → b.prev_block_sha1 ≡ (starting_block rest).finhash
    → encode_block b ≡ err out_of_bounds
unfolding encode_block read_bytes
encode_block_second b n rest number prev = rw (
  number,
  prev,
  read_prefix_short public_key_size (codes "STARTINGBLOCK" ++ rest.0 ∷ rest.1 ∷ []) (omega arith),
)
