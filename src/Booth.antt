-- ===== src/Booth.antt =====
-- voting-booth.cpp: a program that casts one vote.
pub mod Casting
pub mod Election
mod Examples
use blockchain_voting.Base.{ℕ, none, List, [], ◌∷◌, Bytes}
use blockchain_voting.Block.{Transaction}
use blockchain_voting.Codec.{TransactionMsg}
use blockchain_voting.Client.{
  Addresses, init, not_an_ip_token, bootstrap_peers, broadcast_transaction,
}

-- The vote, with the time on the booth's clock. `size` stays unwritten.
abbrev pub vote_of : (publickey vote : Bytes) (now : ℕ) → Transaction
vote_of publickey vote now = record {
  size = none;
  sender_public_key = publickey;
  vote = vote;
  timestamp = now;
}

-- `main`, on its arguments behind the program's name: the exit code, and what is sent to whom.
-- `read_file` gives the bytes of a file.
unfoldable pub cast_vote :
    (get_addr : Addresses) (read_file : Bytes → Bytes) (now : ℕ)
    → List Bytes
    → ℕ × List (Bytes × TransactionMsg)
cast_vote get_addr read_file now (own_address ∷ first_peer ∷ publickeyfile ∷ vote ∷ []) =
    let client = (bootstrap_peers get_addr (init not_an_ip_token first_peer)).0 in
    (0, broadcast_transaction client (vote_of (read_file publickeyfile) vote now))
cast_vote get_addr read_file now argv = (1, [])
