-- ===== src/Codec/Lifetime/Dangling.antt =====
-- While the message lives a decoded block is what its value says; afterwards its pointers dangle.
use blockchain_voting.Base.{
  ◌≡◌, refl, sym, ◌∙◌, ap, inl, inr, some, arith, ok, err, ◌>>=◌, >>=-eq-ok, ok-injective,
}
use blockchain_voting.Base.{dangling, Result-cases}
use blockchain_voting.Block.{Block, new_block}
use blockchain_voting.SyncQueue.{Queue, push}
use blockchain_voting.Codec.{BlockMsg, decode_slots, decode_block, encode_block, c_str}
use blockchain_voting.Codec.RoundTrip.{IsRelayable, encode_block-decode_block}
use blockchain_voting.Codec.Lifetime.{
  Heap, load, Message, new_message, delete_message, BlockObject, decode_block_object, view,
  receive_block, fetch_block,
}

module _ (h : Heap) (msg : BlockMsg) where
  -- While the message lives, its four strings are where it says.
  load-new_message :
      (load (new_message h msg).0 (new_message h msg).1.prev_block_sha1
        ≡ ok (c_str msg.prev_block_sha1))
      × (load (new_message h msg).0 (new_message h msg).1.merkle_root ≡ ok (c_str msg.merkle_root))
      × (load (new_message h msg).0 (new_message h msg).1.verifier_public_key
          ≡ ok (c_str msg.verifier_public_key))
      × (load (new_message h msg).0 (new_message h msg).1.final_hash ≡ ok (c_str msg.final_hash))
  unfolding load new_message
  load-new_message = (ground arith, ground arith, ground arith, ground arith)

-- Once it is destroyed, none of them is.
load-delete_message :
    (h : Heap) (m : Message)
    → (load (delete_message m h) m.prev_block_sha1 ≡ err dangling)
      × (load (delete_message m h) m.merkle_root ≡ err dangling)
      × (load (delete_message m h) m.verifier_public_key ≡ err dangling)
      × (load (delete_message m h) m.final_hash ≡ err dangling)
unfolding load delete_message
load-delete_message h m = (ground arith, ground arith, ground arith, ground arith)

-- The pointers of a decoded block lead to what the values of `decode_block` hold, as long as the
-- message is alive, whatever else the heap holds.
view-decode_block_object :
    (h : Heap) (msg : BlockMsg)
    → (decode_block_object (new_message h msg).1 >>= view (new_message h msg).0) ≡ decode_block msg
unfolding decode_block_object view decode_block new_message
view-decode_block_object h msg =
    elim (Result-cases (decode_slots 0 msg.transaction_msg new_block.transaction_array)) [
      | inl (slots, e) ↦
          (let (prev, root, verifier, final) = load-new_message h msg in
            rw (e, prev, root, verifier, final) refl)
      | inr (reason, e) ↦ rw e refl
    ]

-- An object all of whose pointers are dangling, while its number, its transactions and its other
-- values are those of the block.
pub record Outlived (h : Heap) (o : BlockObject) (b : Block) : Type 0 where
  pub prev_block_sha1 : load h o.prev_block_sha1 ≡ err dangling
  pub merkle_root : load h o.merkle_root ≡ err dangling
  pub verifier_public_key : load h o.verifier_public_key ≡ err dangling
  pub finhash : load h o.finhash ≡ err dangling
  pub block_number : o.block_number ≡ b.block_number
  pub transaction_array : o.transaction_array ≡ b.transaction_array

decode_block_object-Outlived :
    (h : Heap) (msg : BlockMsg) (b : Block)
    → decode_block msg ≡ ok b
    → (o : BlockObject) × (decode_block_object (new_message h msg).1 ≡ ok o)
      × Outlived (delete_message (new_message h msg).1 (new_message h msg).0) o b
unfolding decode_block_object decode_block
decode_block_object-Outlived h msg b e =
    let m = (new_message h msg).1 in
    let (slots, f, g) =
      >>=-eq-ok (decode_slots 0 msg.transaction_msg new_block.transaction_array) _ e in
    let (prev, root, verifier, final) = load-delete_message (new_message h msg).0 m in
    (
      record {
        block_number = some msg.block_number;
        prev_block_sha1 = m.prev_block_sha1;
        magic = msg.magic;
        merkle_root = m.merkle_root;
        transaction_array = slots;
        max_ind = msg.num_transactions;
        verifier_public_key = m.verifier_public_key;
        finhash = m.final_hash;
      },
      (unfold new_message in rw f refl),
      record {
        prev_block_sha1 = prev;
        merkle_root = root;
        verifier_public_key = verifier;
        finhash = final;
        block_number = ap (λ x. x.block_number) (ok-injective g);
        transaction_array = ap (λ x. x.transaction_array) (ok-injective g);
      },
    )

-- A block that has arrived can be sent on exactly while its message lives: whatever else the heap
-- holds, for a message with three hashes of 20 bytes, a verifier's key without NUL and at most
-- eight transactions that `num_transactions` counts, `encode_block` on what the pointers of the
-- decoded block lead to gives the same message; and once the message is destroyed,
-- reading the block through its pointers reads freed memory.
pub encode_block-view :
    (h : Heap) (msg : BlockMsg)
    → IsRelayable msg
    → (o : BlockObject) × (decode_block_object (new_message h msg).1 ≡ ok o)
      × ((view (new_message h msg).0 o >>= encode_block) ≡ ok msg)
      × (view (delete_message (new_message h msg).1 (new_message h msg).0) o ≡ err dangling)
unfolding view
encode_block-view h msg r =
    let (b, e, sent) =
      >>=-eq-ok (decode_block msg) encode_block (encode_block-decode_block msg r) in
    let (o, made, out) = decode_block_object-Outlived h msg b e in
    let same : view (new_message h msg).0 o ≡ ok b =
      sym (ap (λ x. x >>= view (new_message h msg).0) made) ∙ view-decode_block_object h msg ∙ e in
    (o, made, ap (λ x. x >>= encode_block) same ∙ sent, rw (out.prev_block_sha1))

-- A block that arrives by `BroadcastBlock` is queued, and one that `GetBlock` brings is returned,
-- with four pointers into a message that is gone by then: its hashes and the verifier's key can no
-- longer be read, while its number and its transactions are those of the message.
pub receive_block-Outlived :
    (h : Heap) (bq : Queue BlockObject) (msg : BlockMsg) (b : Block)
    → decode_block msg ≡ ok b
    → (h' : Heap) × (o : BlockObject) × (receive_block h bq msg ≡ ok (h', push bq o))
      × (fetch_block h (some msg) ≡ ok (h', some o))
      × Outlived h' o b
unfolding receive_block fetch_block
receive_block-Outlived h bq msg b e =
    let (o, made, out) = decode_block_object-Outlived h msg b e in
    (delete_message (new_message h msg).1 (new_message h msg).0, o, rw made refl, rw made refl, out)
