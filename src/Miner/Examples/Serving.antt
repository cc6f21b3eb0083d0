-- ===== src/Miner/Examples/Serving.antt =====
-- Calls of a node's service.
use blockchain_voting.Base.{◌≡◌, refl, List, [], ◌∷◌, err, out_of_bounds, codes, bytes_eq}
use blockchain_voting.Samples.{transaction}
use blockchain_voting.Codec.{encode_transaction}
use blockchain_voting.Server.{Shared, answer_addr, find_metadata}
use blockchain_voting.Server
use blockchain_voting.Server.Running.{
  Call, broadcasts_transaction, asks_for_addr, asks_for_heartbeat, methods, serve,
}
use blockchain_voting.Miner.{Miner}
use blockchain_voting.Miner.System.{start, shared}

-- The call for peers brings no address along.
abbrev calls : List Call
calls =
    broadcasts_transaction (encode_transaction (transaction 1))
    ∷ asks_for_heartbeat
    ∷ asks_for_addr []
    ∷ asks_for_heartbeat
    ∷ []

abbrev waiting : Miner
waiting = start (λ p. []) (λ p. []) (0, 0) (codes "1.1.1.1") (codes "2.2.2.2")

-- It goes wrong at the third call.
goes_wrong : serve methods calls (shared waiting) ≡ err out_of_bounds
unfolding serve methods bytes_eq find_metadata answer_addr Server.broadcast_transaction
    Server.get_addr Server.get_heartbeat
goes_wrong = refl
