-- ===== src/Miner/Serving.antt =====
-- The methods of the service (server.hpp, server.cpp) as steps of the system.
use blockchain_voting.Base.{◌≡◌, ◌⊎◌, List, ◌∷◌, ◌++◌, Error, Result, ok, err, Bytes}
use blockchain_voting.Server
use blockchain_voting.Server.{Shared}
use blockchain_voting.Server.Running.{Call, methods, serve}
use blockchain_voting.Miner.{Miner}
use blockchain_voting.Miner.System.{Pc, node, shared, with_shared, Reach}

-- The handlers leave a client that is there in its place.
abbrev Fits : Miner → Shared → Type 0
Fits m s = shared (with_shared m s) ≡ s

module _ (sha1 : Bytes → Bytes) (pc : Pc) where
  -- The node gets to these shared objects by steps of its handlers; the processing thread stands.
  abbrev pub StepsTo : Miner → Shared → Type 0
  StepsTo m s = Fits m s × Reach sha1 (node pc m) (node pc (with_shared m s))

  -- The two ways in which calls are served: all of them, or until one goes wrong.
  abbrev pub Served : Miner → List Call → Result Shared → Type 0
  Served m calls r =
      ((s : Shared) × (r ≡ ok s) × StepsTo m s)
      ⊎ ((before : List Call) × (call : Call) × (after : List Call) × (calls
            ≡ before ++ call ∷ after)
          × (s : Shared) × (serve methods before (shared m) ≡ ok s)
          × StepsTo m s
          × (e : Error) × (methods s call ≡ err e)
          × (r ≡ err e))
