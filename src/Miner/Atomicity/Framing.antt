-- ===== src/Miner/Atomicity/Framing.antt =====
-- Blocks and transactions that arrive while `processing_thread` (peer.cpp) works on a transaction
-- or mines change nothing but the queues.
use blockchain_voting.Base.{
  ◌≡◌, refl, sym, inl, inr, false, List, ◌++◌, leb, Bool-cases, Result, ok, err, ◌>>=◌, assert,
  read, ok-injective, Bytes,
}
use blockchain_voting.Block.{Block, Transaction, write_slot, new_block}
use blockchain_voting.Blockchain.{add_block, get_head_block}
use blockchain_voting.Client.{broadcast_block}
use blockchain_voting.Miner.{
  Miner, send_block, append_block, take_in, has_key, finish_block, last_number,
}
use blockchain_voting.Miner.Atomicity.{consider}

-- The miner with these at the ends of its queues.
abbrev pub deliver : List Transaction → List Block → Miner → Miner
deliver ts bs m = record m { tq = m.tq ++ ts; bq = m.bq ++ bs }

abbrev pub then_deliver : List Transaction → List Block → Result Miner → Result Miner
then_deliver ts bs r = r >>= λ m. ok (deliver ts bs m)

pub then_deliver-inv :
    (ts : List Transaction) (bs : List Block) (r : Result Miner) (m : Miner)
    → then_deliver ts bs r ≡ ok m
    → (m' : Miner) × (r ≡ ok m') × (m ≡ deliver ts bs m')
then_deliver-inv ts bs (ok m') m e = (m', refl, sym (ok-injective e))
then_deliver-inv ts bs (err reason) m e = cc

module _ (ts : List Transaction) (bs : List Block) where
  bind-then_deliver {ℓ} :
      {A : Type ℓ} (r : Result A) (f g : A → Result Miner)
      → ((a : A) → g a ≡ then_deliver ts bs (f a))
      → (r >>= g) ≡ then_deliver ts bs (r >>= f)
  bind-then_deliver (ok a) f g h = h a
  bind-then_deliver (err reason) f g h = refl

  send_block-deliver :
      (m : Miner) (b : Block) → send_block (deliver ts bs m) b ≡ then_deliver ts bs (send_block m b)
  unfolding send_block
  send_block-deliver m b = bind-then_deliver (broadcast_block m.client b) _ _ (λ messages. refl)

  append_block-deliver :
      (m : Miner) (b : Block)
      → append_block (deliver ts bs m) b ≡ then_deliver ts bs (append_block m b)
  unfolding append_block
  append_block-deliver m b = bind-then_deliver (add_block m.bc b) _ _ (λ p.
      bind-then_deliver (read p.1.block_number) _ _ (λ n.
        bind-then_deliver (assert (leb n last_number)) _ _
          (λ passed. send_block-deliver (record m { bc = p.0 }) p.1)))

  take_in-deliver :
      (m : Miner) (t : Transaction) → take_in (deliver ts bs m) t ≡ then_deliver ts bs (take_in m t)
  unfolding take_in
  take_in-deliver m t =
      bind-then_deliver (write_slot m.working_block.max_ind t m.working_block.transaction_array) _ _
        (λ slots. refl)

  pub consider-deliver :
      (m : Miner) (t : Transaction) (us : List Transaction)
      → consider (deliver ts bs m) t us ≡ then_deliver ts bs (consider m t us)
  unfolding consider
  consider-deliver m t us = elim (Bool-cases (has_key t us)) [
    | inl twice ↦ rw twice refl
    | inr absent ↦ rw absent (take_in-deliver m t)
  ]

  pub finish_block-deliver :
      (sha1 : Bytes → Bytes) (m : Miner) (w : Block)
      → finish_block sha1 (deliver ts bs m) w ≡ then_deliver ts bs (finish_block sha1 m w)
  unfolding finish_block
  finish_block-deliver sha1 m w = bind-then_deliver (get_head_block m.bc) _ _ (λ head.
      let m0 : Miner = record m { quotafull = false } in
      let b : Block = record w { max_ind = 0; prev_block_sha1 = head.finhash } in
      finished m0 b (append_block m0 b) (append_block-deliver m0 b))
    where
      finished :
          (m0 : Miner) (b : Block) (r : Result Miner)
          → append_block (deliver ts bs m0) b ≡ then_deliver ts bs r
          → (append_block (deliver ts bs m0) b >>= λ done.
              ok (record done { working_block = new_block }))
            ≡ then_deliver ts bs (r >>= λ done. ok (record done { working_block = new_block }))
      finished m0 b (ok m1) e = rw e refl
      finished m0 b (err reason) e = rw e refl
