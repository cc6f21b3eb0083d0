-- ===== src/Codec/RoundTrip.antt =====
-- Encoding and decoding of encoding_helpers.cpp undo each other.
use blockchain_voting.Base.{
  ℕ, zero, suc, ◌+◌, ◌-◌, ◌≤◌, ◌<◌, ◌≡◌, refl, ap, ◌∙◌, none, some, List, [], ◌∷◌, ◌++◌, map,
  append-nil, append_assoc, arith, length, take, length-append, take-append, All, ok, err,
  out_of_bounds, ◌>>=◌, Bytes,
}
use Prim.Native.Nat.add
use blockchain_voting.Memory.{buf, read_bytes, until_nul, c_string, public_key_size}
use blockchain_voting.Memory.Laws.{read_prefix-eq-take}
use blockchain_voting.Block.{Block, Transaction, read_slots, rounds, num_transactions_per_block}
use blockchain_voting.Block.Slots.{filled, read_slots-filled, write_slot-filled, write_slot_full}
use blockchain_voting.Codec.{
  TransactionMsg, BlockMsg, decode_transaction, encode_transaction, decode_slots, decode_block,
  encode_block, c_str,
}

-- A transaction as it arrives: `size` is lost.
abbrev pub unsized : Transaction → Transaction
unsized t = record t { size = none }

map-encode-decode :
    (ms : List TransactionMsg) → map encode_transaction (map decode_transaction ms) ≡ ms
unfolding encode_transaction decode_transaction
map-encode-decode [] = refl
map-encode-decode (m ∷ ms) = ap (◌∷◌ m) (map-encode-decode ms)

map-decode-encode :
    (ts : List Transaction) → map decode_transaction (map encode_transaction ts) ≡ map unsized ts
unfolding encode_transaction decode_transaction
map-decode-encode [] = refl
map-decode-encode (t ∷ ts) = ap (◌∷◌ (unsized t)) (map-decode-encode ts)

length-snoc : (ts : List Transaction) (t : Transaction) → length (ts ++ t ∷ []) ≡ suc (length ts)
length-snoc ts t = omega (arith, length-append ts (t ∷ []))

decode_slots-filled :
    (ts : List Transaction) (ms : List TransactionMsg) (free : ℕ)
    → decode_slots (length ts) ms (filled ts (length ms + free))
      ≡ ok (filled (ts ++ map decode_transaction ms) free)
unfolding decode_slots
decode_slots-filled ts [] free = rw (append-nil, add.zero)
decode_slots-filled ts (m ∷ ms) free =
    let t = decode_transaction m in
    let e = length-snoc ts t in
    let ih = decode_slots-filled (ts ++ t ∷ []) ms free in
    rw (add.suc, write_slot-filled) (rw (e, append_assoc) at ih)

-- More than eight transactions are written behind the end of the array.
pub decode_slots_overflow :
    (ts : List Transaction) (ms : List TransactionMsg) (free : ℕ)
    → free < length ms
    → decode_slots (length ts) ms (filled ts free) ≡ err out_of_bounds
unfolding decode_slots
decode_slots_overflow ts [] free h = absurd (omega arith)
decode_slots_overflow ts (m ∷ ms) zero h = rw write_slot_full
decode_slots_overflow ts (m ∷ ms) (suc free) h =
    let t = decode_transaction m in
    let e = length-snoc ts t in
    let ih = decode_slots_overflow (ts ++ t ∷ []) ms free (omega arith) in
    rw write_slot-filled (rw e at ih)

-- A string that `std::string(const char*)` keeps whole.
abbrev pub NulFree : Bytes → Type 0
NulFree = All (λ b. 0 < b)

until_nul-eq : (s junk : Bytes) → NulFree s → until_nul (s ++ 0 ∷ junk) ≡ ok s
unfolding until_nul
until_nul-eq [] junk h = refl
until_nul-eq (b ∷ s) junk h = rw (until_nul-eq s junk h.1) (ground arith)

read_bytes-take : (bs : Bytes) (n : ℕ) → n ≤ length bs → read_bytes (buf bs) n ≡ ok (take n bs)
unfolding read_bytes
read_bytes-take bs n h = read_prefix-eq-take n bs h

read_bytes-c_str : (bs : Bytes) (n : ℕ) → length bs ≡ n → read_bytes (c_str bs) n ≡ ok bs
read_bytes-c_str bs n h =
    read_bytes-take (bs ++ 0 ∷ []) n (omega (arith, length-append bs (0 ∷ [])))
    ∙ ap ok (take-append n bs (0 ∷ []) h)

-- A block as `decode_block` leaves it after a round over the wire: each hash is its first 20 bytes
-- and the NUL of its `std::string`, and the sizes are unwritten.
abbrev pub received : ℕ → Bytes → Bytes → Bytes → Bytes → List Transaction → ℕ → Block → Block
received n p root verifier f ts free b = record b {
  block_number = some n;
  prev_block_sha1 = c_str (take public_key_size p);
  merkle_root = c_str (take public_key_size root);
  transaction_array = filled (map unsized ts) free;
  verifier_public_key = c_str verifier;
  finhash = c_str (take public_key_size f);
}

-- What a block needs to be sent: every pointer leads to enough bytes, and exactly the slots below
-- `max_ind` are written.
pub record Sendable (b : Block) : Type 0 where
  pub n : ℕ
  pub p : Bytes
  pub root : Bytes
  pub verifier : Bytes
  pub junk : Bytes
  pub f : Bytes
  pub ts : List Transaction
  pub free : ℕ
  pub number : b.block_number ≡ some n
  pub prev : b.prev_block_sha1 ≡ buf p
  pub long_prev : public_key_size ≤ length p
  pub merkle : b.merkle_root ≡ buf root
  pub long_root : public_key_size ≤ length root
  pub key : b.verifier_public_key ≡ buf (verifier ++ 0 ∷ junk)
  pub nul_free : NulFree verifier
  pub hash : b.finhash ≡ buf f
  pub long_hash : public_key_size ≤ length f
  pub slots : b.transaction_array ≡ filled ts free
  pub room : length ts + free ≡ num_transactions_per_block
  pub count : b.max_ind ≡ length ts

-- The message of such a block.
abbrev pub message : (b : Block) → Sendable b → BlockMsg
message b s = record {
  block_number = s.n;
  prev_block_sha1 = take public_key_size s.p;
  magic = b.magic;
  merkle_root = take public_key_size s.root;
  transaction_msg = map encode_transaction s.ts;
  num_transactions = b.max_ind;
  verifier_public_key = s.verifier;
  final_hash = take public_key_size s.f;
}

pub rounds-small : (n : ℕ) → n ≤ num_transactions_per_block → rounds n ≡ n
rounds-small n h = ground arith

pub encode_block-ok : (b : Block) (s : Sendable b) → encode_block b ≡ ok (message b s)
unfolding encode_block c_string
encode_block-ok b s =
    let small = rounds-small (length s.ts) (let r = s.room in omega arith) in
    simp (
      s.number,
      s.prev,
      s.merkle,
      s.key,
      s.hash,
      s.slots,
      s.count,
      small,
      read_bytes-take s.p 20 s.long_prev,
      read_bytes-take s.root 20 s.long_root,
      read_bytes-take s.f 20 s.long_hash,
      until_nul-eq s.verifier s.junk s.nul_free,
      read_slots-filled,
    )

pub decode_block-ok :
    (m : BlockMsg) (free : ℕ)
    → length m.transaction_msg + free ≡ num_transactions_per_block
    → decode_block m
      ≡ ok (record {
        block_number = some m.block_number;
        prev_block_sha1 = c_str m.prev_block_sha1;
        magic = m.magic;
        merkle_root = c_str m.merkle_root;
        transaction_array = filled (map decode_transaction m.transaction_msg) free;
        max_ind = m.num_transactions;
        verifier_public_key = c_str m.verifier_public_key;
        finhash = c_str m.final_hash;
      })
unfolding decode_block
decode_block-ok m free e =
    let run = decode_slots-filled [] m.transaction_msg free in rw (rw e at run)

length-map-encode : (ts : List Transaction) → length (map encode_transaction ts) ≡ length ts
length-map-encode [] = refl
length-map-encode (t ∷ ts) = ap suc (length-map-encode ts)

-- For a block with three hashes of 20 bytes or more, a verifier's key that ends with a NUL, and
-- `max_ind` written slots followed by unwritten ones, sending it and decoding the message gives the
-- block back: its number, its magic, the first 20 bytes of each hash, the verifier's key, and the
-- transactions but for their sizes.
pub decode_block-encode_block :
    (b : Block) (s : Sendable b)
    → (encode_block b >>= decode_block) ≡ ok (received s.n s.p s.root s.verifier s.f s.ts s.free b)
decode_block-encode_block b s =
    rw (encode_block-ok b s)
      (decode_block-ok (message b s) s.free (rw length-map-encode s.room) ∙ rw map-decode-encode)

-- A message that `encode_block` can have made of a block.
pub record IsRelayable (m : BlockMsg) : Type 0 where
  pub prev : length m.prev_block_sha1 ≡ public_key_size
  pub merkle : length m.merkle_root ≡ public_key_size
  pub hash : length m.final_hash ≡ public_key_size
  pub nul_free : NulFree m.verifier_public_key
  pub count : m.num_transactions ≡ length m.transaction_msg
  pub small : length m.transaction_msg ≤ num_transactions_per_block

length-map-decode : (ms : List TransactionMsg) → length (map decode_transaction ms) ≡ length ms
length-map-decode [] = refl
length-map-decode (m ∷ ms) = ap suc (length-map-decode ms)

read_decoded :
    (m : BlockMsg) (free : ℕ)
    → m.num_transactions ≡ length m.transaction_msg
    → length m.transaction_msg ≤ num_transactions_per_block
    → read_slots
        (rounds m.num_transactions)
        (filled (map decode_transaction m.transaction_msg) free)
      ≡ ok (map decode_transaction m.transaction_msg)
read_decoded m free count small =
    rw (count, rounds-small (length m.transaction_msg) small, ← length-map-decode m.transaction_msg)
      (read_slots-filled (map decode_transaction m.transaction_msg) free)

-- Relaying is exact: for a message with three hashes of 20 bytes, a verifier's key without NUL and
-- at most eight transactions that `num_transactions` counts, decoding it and encoding the block
-- gives the same message.
pub encode_block-decode_block :
    (m : BlockMsg) → IsRelayable m → (decode_block m >>= encode_block) ≡ ok m
unfolding encode_block c_string
encode_block-decode_block m r =
    let free = num_transactions_per_block - length m.transaction_msg in
    let small = r.small in
    rw (decode_block-ok m free (omega arith)) (
      simp (
        read_bytes-c_str m.prev_block_sha1 20 r.prev,
        read_bytes-c_str m.merkle_root 20 r.merkle,
        read_bytes-c_str m.final_hash 20 r.hash,
        until_nul-eq m.verifier_public_key [] r.nul_free,
        read_decoded m free r.count r.small,
        map-encode-decode,
      ))
