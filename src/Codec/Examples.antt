-- ===== src/Codec/Examples.antt =====
-- Blocks and messages on their way over the wire.
use blockchain_voting.Base.{◌≡◌, refl, [], ◌∷◌, map, arith, ok, ◌>>=◌}
use blockchain_voting.Memory.{buf, c_string, read_bytes, read_prefix}
use blockchain_voting.Block.{Block, read_slots}
use blockchain_voting.Block.Slots.{filled}
use blockchain_voting.Samples.{votes, hash, full_block}
use blockchain_voting.Codec.{BlockMsg, encode_transaction, encode_block, decode_block}
use blockchain_voting.Codec.RoundTrip.{
  Sendable, message, received, decode_block-encode_block, IsRelayable, encode_block-decode_block,
}
use blockchain_voting.Codec.Mined.{encode_block_empty}

-- Three votes, by a verifier with the key "A".
abbrev sent : Block
sent = record (full_block 8 (hash 4) (hash 5)) {
  transaction_array = filled (votes 3 8) 5;
  max_ind = 3;
  verifier_public_key = buf (65 ∷ 0 ∷ []);
}

abbrev sent-Sendable : Sendable sent
sent-Sendable = record {
  n = 2;
  p = hash 4;
  root = hash 9;
  verifier = 65 ∷ [];
  junk = [];
  f = hash 5;
  ts = votes 3 8;
  free = 5;
  number = refl;
  prev = refl;
  long_prev = omega arith;
  merkle = refl;
  long_root = omega arith;
  key = refl;
  nul_free = (omega arith, tt);
  hash = refl;
  long_hash = omega arith;
  slots = refl;
  room = refl;
  count = refl;
}

decode_block-encode_block_example :
    (encode_block sent >>= decode_block)
    ≡ ok (received 2 (hash 4) (hash 9) (65 ∷ []) (hash 5) (votes 3 8) 5 sent)
decode_block-encode_block_example = decode_block-encode_block sent sent-Sendable

abbrev relayed : BlockMsg
relayed = message sent sent-Sendable

relayed-IsRelayable : IsRelayable relayed
relayed-IsRelayable = record {
  prev = refl;
  merkle = refl;
  hash = refl;
  nul_free = (omega arith, tt);
  count = refl;
  small = omega arith;
}

encode_block-decode_block_example : (decode_block relayed >>= encode_block) ≡ ok relayed
encode_block-decode_block_example = encode_block-decode_block relayed relayed-IsRelayable

abbrev overlong : BlockMsg
overlong = record relayed { transaction_msg = map encode_transaction (votes 9 20) }

-- A block as a miner sends it: its transactions are there, but `max_ind` is 0.
abbrev mined : Block
mined = record sent { prev_block_sha1 = buf (hash 5); max_ind = 0; finhash = buf (hash 6) }

abbrev mined_msg : BlockMsg
mined_msg = record relayed {
  prev_block_sha1 = hash 5;
  transaction_msg = [];
  num_transactions = 0;
  final_hash = hash 6;
}

mined_sent : encode_block mined ≡ ok mined_msg
unfolding encode_block c_string read_bytes read_prefix read_slots
mined_sent = refl

mined_is_empty : (mined_msg.transaction_msg ≡ []) × (mined_msg.num_transactions ≡ 0)
mined_is_empty = encode_block_empty mined mined_msg refl mined_sent
