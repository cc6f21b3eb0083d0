-- ===== src/Miner/Atomicity/Simulation.antt =====
-- That the second half of a round of `processing_thread` (peer.cpp) may be read as one step, though
-- messages arrive in the middle of it.
use blockchain_voting.Base.{
  ℕ, suc, ◌≡◌, refl, sym, ap, ap₂, subst, ◌∙◌, inl, inr, Bool, true, false, Option, List, [],
  append-nil, Bool-cases, Result, ok, read, Bytes,
}
use blockchain_voting.Block.{Block, Transaction, read_slots, rounds}
use blockchain_voting.Miner.{
  Miner, handle_transaction, mine, try_magic, finish_block, second_half, num_magic_to_try,
}
use blockchain_voting.Miner.System.{Pc, at_top, at_pop, Node, node, Step, Reach, here, next}
use blockchain_voting.Miner.System
use blockchain_voting.Miner.Polling.{second_half-pop}
use blockchain_voting.Miner.Atomicity.{
  between, popped, mining, Thread, thread, consider, mining_next, attempted, SmallStep, continues,
  goes_on, pops, skips_pop, throws_out, considers, fails, succeeds, gives_up, receives_block,
  receives_transaction, gives_peers, SmallReach, stays, then_step,
}
use blockchain_voting.Miner.Atomicity.Framing.{
  deliver, then_deliver, then_deliver-inv, consider-deliver, finish_block-deliver,
}
use blockchain_voting.Miner.Atomicity.Refining.{
  Midway, Simulated, Midway-end, Midway-on, receives_block-Simulated,
  receives_transaction-Simulated,
}
use blockchain_voting.Miner.Atomicity.Parts.{
  finishing, second_half-full, handle_transaction-old, handle_transaction-new, try_magic-attempted,
  mine-full, mine-room, try_magic-zero,
}

module _ (sha1 : Bytes → Bytes) (s0 : Node) where
  begins_with :
      (m now : Miner) (rest : Miner → Result (Option Miner))
      → Reach sha1 s0 (node at_pop m)
      → second_half sha1 m ≡ rest now
      → Midway sha1 s0 now rest
  begins_with m now rest r e = record {
    from = m;
    reached = r;
    now = now;
    same = e;
    ts = [];
    bs = [];
    messages = tt;
    blocks = tt;
    at =
        ap₂ (λ tq bq. record now { tq = tq; bq = bq }) (sym (append-nil now.tq))
          (sym (append-nil now.bq));
  }

  -- The transaction has been worked on, and it is decided whether to mine.
  considered :
      (m m' x : Miner) (t : Transaction)
      (v : Midway sha1 s0 m (λ y. finishing (handle_transaction sha1 y t)))
      → handle_transaction sha1 v.now t ≡ mine sha1 x
      → m' ≡ deliver v.ts v.bs x
      → Simulated sha1 s0 (mining_next m'.quotafull) m'
  considered m m' x t v e at = elim (Bool-cases x.quotafull) [
    | inl full ↦
        let here_full : m'.quotafull ≡ true = ap {A = Miner} (λ y. y.quotafull) at ∙ full in
        subst (λ q. Simulated sha1 s0 (mining_next q) m') (sym here_full)
          (Midway-on sha1 s0 m m' x _ (λ y. finishing (try_magic sha1 num_magic_to_try y)) v
            (ap finishing (e ∙ mine-full sha1 x full)) at)
    | inr room ↦
        let here_room : m'.quotafull ≡ false = ap {A = Miner} (λ y. y.quotafull) at ∙ room in
        subst (λ q. Simulated sha1 s0 (mining_next q) m') (sym here_room)
          (Midway-end sha1 s0 m m' x _ v (ap finishing (e ∙ mine-room sha1 x room)) at)
  ]

  considers-Simulated :
      (m m' : Miner) (t : Transaction) (ts : List Transaction)
      → Simulated sha1 s0 (popped t) m
      → m.bc.voted t.sender_public_key ≡ false
      → read_slots (rounds m.working_block.max_ind) m.working_block.transaction_array ≡ ok ts
      → consider m t ts ≡ ok m'
      → Simulated sha1 s0 (mining_next m'.quotafull) m'
  considers-Simulated m m' t ts v new read e =
      let now = v.now in
      let without : then_deliver v.ts v.bs (consider now t ts) ≡ ok m' =
        sym (consider-deliver v.ts v.bs now t ts) ∙ ap (λ x. consider x t ts) (sym v.at) ∙ e in
      let (x, f, at) = then_deliver-inv v.ts v.bs (consider now t ts) m' without in
      let new0 : now.bc.voted t.sender_public_key ≡ false =
        ap {A = Miner} (λ x. x.bc.voted t.sender_public_key) (sym v.at) ∙ new in
      let read0 : read_slots (rounds now.working_block.max_ind) now.working_block.transaction_array
          ≡ ok ts =
        ap {A = Miner}
          (λ x. read_slots (rounds x.working_block.max_ind) x.working_block.transaction_array)
          (sym v.at)
        ∙ read in
      considered m m' x t v (handle_transaction-new sha1 now t ts x new0 read0 f) at

  throws_out-Simulated :
      (m : Miner) (t : Transaction)
      → Simulated sha1 s0 (popped t) m
      → m.bc.voted t.sender_public_key ≡ true
      → Reach sha1 s0 (node at_top m)
  throws_out-Simulated m t v old =
      let old0 : v.now.bc.voted t.sender_public_key ≡ true =
        ap {A = Miner} (λ x. x.bc.voted t.sender_public_key) (sym v.at) ∙ old in
      Midway-end sha1 s0 m m v.now _ v (ap finishing (handle_transaction-old sha1 v.now t old0))
        v.at

  attempt_now :
      (m : Miner) (n : ℕ) (v : Simulated sha1 s0 (mining n) m) (w : Block) (hit : Bool)
      → attempted sha1 m.working_block ≡ ok (w, hit)
      → attempted sha1 v.now.working_block ≡ ok (w, hit)
  attempt_now m n v w hit e = ap {A = Miner} (λ x. attempted sha1 x.working_block) (sym v.at) ∙ e

  fails-Simulated :
      (m : Miner) (n : ℕ) (w : Block)
      → Simulated sha1 s0 (mining (suc n)) m
      → attempted sha1 m.working_block ≡ ok (w, false)
      → Simulated sha1 s0 (mining n) (record m { working_block = w })
  fails-Simulated m n w v e =
      Midway-on sha1 s0 m (record m { working_block = w }) (record v.now { working_block = w }) _
        (λ x. finishing (try_magic sha1 n x)) v
        (ap finishing
          (try_magic-attempted sha1 v.now n w false (attempt_now m (suc n) v w false e)))
        (ap {A = Miner} (λ x. record x { working_block = w }) v.at)

  succeeds-Simulated :
      (m m' : Miner) (n : ℕ) (w : Block)
      → Simulated sha1 s0 (mining (suc n)) m
      → attempted sha1 m.working_block ≡ ok (w, true)
      → finish_block sha1 m w ≡ ok m'
      → Reach sha1 s0 (node at_top m')
  succeeds-Simulated m m' n w v e done =
      let without : then_deliver v.ts v.bs (finish_block sha1 v.now w) ≡ ok m' =
        sym (finish_block-deliver v.ts v.bs sha1 v.now w)
        ∙ ap (λ x. finish_block sha1 x w) (sym v.at)
        ∙ done in
      let (x, f, at) = then_deliver-inv v.ts v.bs (finish_block sha1 v.now w) m' without in
      Midway-end sha1 s0 m m' x _ v
        (ap finishing
          (try_magic-attempted sha1 v.now n w true (attempt_now m (suc n) v w true e) ∙ f))
        at

  SmallStep-Simulated :
      {s t : Thread}
      → SmallStep sha1 s t
      → Simulated sha1 s0 s.phase s.miner
      → Simulated sha1 s0 t.phase t.miner
  SmallStep-Simulated {s} (continues env m at e to) v =
      rw to
        (next (subst (λ p. Simulated sha1 s0 p s.miner) at v) (System.continues env m refl e refl))
  SmallStep-Simulated {s} (goes_on env m at e to) v =
      rw to
        (next (subst (λ p. Simulated sha1 s0 p s.miner) at v) (System.goes_on env m refl e refl))
  SmallStep-Simulated {s} (pops u tq at room e to) v = rw to (
      begins_with s.miner (record s.miner { tq = tq }) _
        (subst (λ p. Simulated sha1 s0 p s.miner) at v)
        (second_half-pop sha1 s.miner u tq _ room e refl))
  SmallStep-Simulated {s} (skips_pop at full to) v = rw to (
      begins_with s.miner s.miner _ (subst (λ p. Simulated sha1 s0 p s.miner) at v)
        (second_half-full sha1 s.miner full))
  SmallStep-Simulated {s} (throws_out u at old to) v =
      rw to (throws_out-Simulated s.miner u (subst (λ p. Simulated sha1 s0 p s.miner) at v) old)
  SmallStep-Simulated {s} (considers u ts m at new read e to) v = rw to (
      considers-Simulated s.miner m u ts (subst (λ p. Simulated sha1 s0 p s.miner) at v) new read e)
  SmallStep-Simulated {s} (fails n w at e to) v =
      rw to (fails-Simulated s.miner n w (subst (λ p. Simulated sha1 s0 p s.miner) at v) e)
  SmallStep-Simulated {s} (succeeds n w m at e done to) v =
      rw to
        (succeeds-Simulated s.miner m n w (subst (λ p. Simulated sha1 s0 p s.miner) at v) e done)
  SmallStep-Simulated {s} (gives_up at to) v =
      let w = subst (λ p. Simulated sha1 s0 p s.miner) at v in
      rw to (
        Midway-end sha1 s0 s.miner s.miner w.now _ w (ap finishing (try_magic-zero sha1 w.now))
          w.at)
  SmallStep-Simulated {s} (receives_block msg r e to) v =
      rw to (receives_block-Simulated sha1 s0 s.phase s.miner msg r e v)
  SmallStep-Simulated {s} (receives_transaction msg to) v =
      rw to (receives_transaction-Simulated sha1 s0 s.phase s.miner msg v)
  SmallStep-Simulated {s} (gives_peers pc metadata r at e to) v =
      rw (to, at)
        (next (subst (λ p. Simulated sha1 s0 p s.miner) at v)
          (System.gives_peers metadata r e refl))

  SmallReach-Simulated :
      {s t : Thread}
      → SmallReach sha1 s t
      → Simulated sha1 s0 s.phase s.miner
      → Simulated sha1 s0 t.phase t.miner
  SmallReach-Simulated stays v = v
  SmallReach-Simulated (then_step r st) v = SmallStep-Simulated st (SmallReach-Simulated r v)

-- The second half of a round may be read as one step, though it is long. Whatever a node comes to
-- in small steps, with blocks and transactions arriving between the `pop`, the work on the
-- transaction and any two attempts of the mining loop, it comes to in whole halves, as soon as it
-- stands between two halves again. A call of `GetAddr` falls between halves.
pub SmallReach-Reach :
    (sha1 : Bytes → Bytes) (pc pc' : Pc) (m m' : Miner)
    → SmallReach sha1 (thread (between pc) m) (thread (between pc') m')
    → Reach sha1 (node pc m) (node pc' m')
SmallReach-Reach sha1 pc pc' m m' r = SmallReach-Simulated sha1 (node pc m) r here
