-- ===== src/Miner/Loop.antt =====
-- The `while(true)` of `processing_thread` (peer.cpp): one round after the other.
use blockchain_voting.Base.{
  Option, none, some, List, [], ◌∷◌, if◌then◌else◌, Result, ok, ◌>>=◌, Bytes,
}
use blockchain_voting.Miner.{Miner, Environment, first_half, second_half}

module _ (sha1 : Bytes → Bytes) where
  -- One round; `none` is the thread that waits in `pop`.
  unfoldable pub round : Environment → Miner → Result (Option Miner)
  round env m = do
    (m', docontinue) ← first_half env m
    if docontinue then ok (some m') else second_half sha1 m'

  -- As many rounds as there are environments, unless the thread comes to wait.
  unfoldable pub run : List Environment → Miner → Result (Option Miner)
  unfolding round
  run [] m = ok (some m)
  run (env ∷ envs) m = do r ← round env m; elim r [ none ↦ ok none | some m' ↦ run envs m' ]
