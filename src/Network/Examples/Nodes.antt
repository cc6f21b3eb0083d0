-- ===== src/Network/Examples/Nodes.antt =====
-- What one node of the network has come to.
use blockchain_voting.Base.{
  ◌≤◌, ◌≡◌, refl, subst, true, false, [], ◌∷◌, length, replicate, Bytes, bytes_eq,
}
use blockchain_voting.Blockchain.{starting_block, insert_keys}
use blockchain_voting.Blockchain
use blockchain_voting.Blockchain.Adding.{numbered}
use blockchain_voting.Blockchain.Voters.{chain_has}
use blockchain_voting.Client.Network.{IsNetwork}
use blockchain_voting.Miner.{last_number}
use blockchain_voting.Miner.Invariant.{Inv}
use blockchain_voting.Miner.Samples.{quick_sha1, nobody, own, idle, first_block, grown}
use blockchain_voting.Miner.System.{at_top, node, Reach, start-Inv}
use blockchain_voting.Miner.Ledger.{LedgerReach, in_ledger, ledger_of, Reach-refines}
use blockchain_voting.Miner.Safety.{Reach-Inv, voted_once, reachable_bounds}
use blockchain_voting.Network.Integrity.{NetReach-Reach}
use blockchain_voting.Network.Examples.{same_openings, after_first}

to_grown : Reach quick_sha1 (node at_top idle) (node at_top grown)
to_grown =
    subst (Reach quick_sha1 (node at_top idle)) after_first.2
      (NetReach-Reach same_openings after_first.1 3)

voted_once_example :
    (grown.bc.voted (replicate 20 18) ≡ true)
    × (chain_has (replicate 20 18) [] ≡ false)
    × (chain_has (replicate 20 18) (starting_block (0, 0) ∷ []) ≡ false)
unfolding bytes_eq
voted_once_example =
    voted_once quick_sha1 nobody nobody (0, 0) own own (node at_top grown) to_grown
      (replicate 20 18) [] (starting_block (0, 0) ∷ [])
      (numbered (Blockchain.init (0, 0)) first_block) refl refl

reachable_bounds_example :
    IsNetwork grown.client
    × (1 ≤ length grown.bc.blocks)
    × (1 ≤ grown.bc.chain_length)
    × (grown.bc.chain_length ≤ last_number)
reachable_bounds_example =
    reachable_bounds quick_sha1 nobody nobody (0, 0) own own (node at_top grown) to_grown

Reach-refines_example :
    LedgerReach ((λ j. false) ∷ []) (ledger_of grown.bc)
    × ((j : Bytes) → grown.bc.voted j ≡ in_ledger j (ledger_of grown.bc))
Reach-refines_example =
    Reach-refines quick_sha1 nobody nobody (0, 0) own own (node at_top grown) to_grown

idle-Inv : Inv idle
idle-Inv = start-Inv nobody nobody (0, 0) own own

Reach-Inv_example : Inv grown
Reach-Inv_example = Reach-Inv idle-Inv to_grown
