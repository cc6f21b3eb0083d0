-- ===== src/Miner/Atomicity/Equivalence.antt =====
-- Whole halves of a round of `processing_thread` (peer.cpp), and small steps.
use blockchain_voting.Base.{
  ℕ, zero, suc, ◌+◌, ◌%◌, ◌^◌, ◌≡◌, refl, sym, ap, subst, ◌∙◌, ◌↔◌, inl, inr, Bool, false, Option,
  none, some, if◌then◌else◌, Bool-cases, Result, ok, ◌>>=◌, >>=-eq-ok, ok-injective, Bytes,
}
use mathlib.Core.Option.{some-injective}
use blockchain_voting.Memory.{read_bytes, public_key_size}
use blockchain_voting.Hash.{meets_target}
use blockchain_voting.Block.{Block, Transaction, read_slots, rounds}
use blockchain_voting.Finhash.{calculate_finhash}
use blockchain_voting.SyncQueue.{Queue, pop}
use blockchain_voting.Miner.{
  Miner, handle_transaction, has_key, take_in, on_pop, mine, try_magic, second_half,
  num_magic_to_try,
}
use blockchain_voting.Miner.System.{Pc, at_top, at_pop, Node, node, Step, Reach, here, next}
use blockchain_voting.Miner.System
use blockchain_voting.Miner.Atomicity.{
  between, popped, mining, Thread, thread, consider, mining_next, attempted, continues, goes_on,
  pops, skips_pop, throws_out, considers, fails, succeeds, gives_up, receives_block,
  receives_transaction, gives_peers, SmallReach, stays, then_step,
}
use blockchain_voting.Miner.Atomicity.Parts.{mine-full, mine-room}
use blockchain_voting.Miner.Atomicity.Simulation.{SmallReach-Reach}

module _ (sha1 : Bytes → Bytes) (s0 : Thread) where
  try_magic-SmallReach :
      (n : ℕ) (m m' : Miner)
      → SmallReach sha1 s0 (thread (mining n) m)
      → try_magic sha1 n m ≡ ok m'
      → SmallReach sha1 s0 (thread (between at_top) m')
  unfolding try_magic attempted
  try_magic-SmallReach zero m m' r e =
      then_step r (gives_up refl (ap (thread (between at_top)) (sym (ok-injective e))))
  try_magic-SmallReach (suc n) m m' r e =
      let w = m.working_block in
      let next_block : Block = record w { magic = (w.magic + 1) % 2 ^ 64 } in
      let (w', f, g) = >>=-eq-ok (calculate_finhash sha1 next_block) _ e in
      let (hash, k, l) = >>=-eq-ok (read_bytes w'.finhash public_key_size) _ g in
      elim (Bool-cases (meets_target hash)) [
        | inl hit ↦ then_step r (succeeds n w' m' refl (rw (f, k, hit) refl) (rw hit at l) refl)
        | inr miss ↦
            try_magic-SmallReach n (record m { working_block = w' }) m'
              (then_step r (fails n w' refl (rw (f, k, miss) refl) refl)) (rw miss at l)
      ]

  mine-SmallReach :
      (m m' : Miner)
      → SmallReach sha1 s0 (thread (mining_next m.quotafull) m)
      → mine sha1 m ≡ ok m'
      → SmallReach sha1 s0 (thread (between at_top) m')
  mine-SmallReach m m' r e = elim (Bool-cases m.quotafull) [
    | inl full ↦
        try_magic-SmallReach num_magic_to_try m m'
          (subst (λ q. SmallReach sha1 s0 (thread (mining_next q) m)) full r)
          (sym (mine-full sha1 m full) ∙ e)
    | inr room ↦
        subst (λ x. SmallReach sha1 s0 (thread (between at_top) x))
          (ok-injective (sym (mine-room sha1 m room) ∙ e))
          (subst (λ q. SmallReach sha1 s0 (thread (mining_next q) m)) room r)
  ]

  handle_transaction-SmallReach :
      (m m' : Miner) (t : Transaction)
      → SmallReach sha1 s0 (thread (popped t) m)
      → handle_transaction sha1 m t ≡ ok m'
      → SmallReach sha1 s0 (thread (between at_top) m')
  unfolding handle_transaction consider
  handle_transaction-SmallReach m m' t r e = elim (Bool-cases (m.bc.voted t.sender_public_key)) [
    | inl old ↦
        subst (λ x. SmallReach sha1 s0 (thread (between at_top) x)) (ok-injective (simp old at e))
          (then_step r (throws_out t refl old refl))
    | inr new ↦
        let w = m.working_block in
        let (ts, f, g) =
          >>=-eq-ok (read_slots (rounds w.max_ind) w.transaction_array) _ (simp new at e) in
        elim (Bool-cases (has_key t ts)) [
          | inl twice ↦
              mine-SmallReach m m' (then_step r (considers t ts m refl new f (rw twice refl) refl))
                (rw twice at g)
          | inr absent ↦
              let (x, k, l) = >>=-eq-ok (take_in m t) _ (rw absent at g) in
              mine-SmallReach x m' (then_step r (considers t ts x refl new f (rw absent k) refl)) l
        ]
  ]

  on_pop-SmallReach :
      (m m' : Miner) (p : Option (Transaction × Queue Transaction))
      → SmallReach sha1 s0 (thread (between at_pop) m)
      → m.quotafull ≡ false
      → pop m.tq ≡ p
      → on_pop sha1 m p ≡ ok (some m')
      → SmallReach sha1 s0 (thread (between at_top) m')
  unfolding on_pop
  on_pop-SmallReach m m' none r room got e = cc
  on_pop-SmallReach m m' (some (t, tq)) r room got e =
      let (x, f, g) = >>=-eq-ok (handle_transaction sha1 (record m { tq = tq }) t) _ e in
      subst (λ y. SmallReach sha1 s0 (thread (between at_top) y))
        (some-injective _ _ (ok-injective g))
        (handle_transaction-SmallReach (record m { tq = tq }) x t
          (then_step r (pops t tq refl room got refl)) f)

  second_half-SmallReach :
      (m m' : Miner)
      → SmallReach sha1 s0 (thread (between at_pop) m)
      → second_half sha1 m ≡ ok (some m')
      → SmallReach sha1 s0 (thread (between at_top) m')
  unfolding second_half
  second_half-SmallReach m m' r e =
      let finished : Miner → Result (Option Miner) = λ x. ok (some x) in
      let branch =
        λ (q : Bool). if q then (mine sha1 m >>= finished) else on_pop sha1 m (pop m.tq) in
      elim (Bool-cases m.quotafull) [
        | inl full ↦
            let (x, run, end) = >>=-eq-ok (mine sha1 m) finished (sym (ap branch full) ∙ e) in
            subst (λ y. SmallReach sha1 s0 (thread (between at_top) y))
              (some-injective _ _ (ok-injective end))
              (try_magic-SmallReach num_magic_to_try m x (then_step r (skips_pop refl full refl))
                (sym (mine-full sha1 m full) ∙ run))
        | inr room ↦ on_pop-SmallReach m m' (pop m.tq) r room refl (sym (ap branch room) ∙ e)
      ]

-- The steps of a node, in small steps.
abbrev in_phases : Node → Thread
in_phases s = thread (between s.pc) s.miner

Step-SmallReach :
    (sha1 : Bytes → Bytes) (s0 : Thread) {s t : Node}
    → Step sha1 s t
    → SmallReach sha1 s0 (in_phases s)
    → SmallReach sha1 s0 (in_phases t)
Step-SmallReach sha1 s0 (System.continues env m at e to) r =
    rw to (then_step r (continues env m (ap between at) e refl))
Step-SmallReach sha1 s0 (System.goes_on env m at e to) r =
    rw to (then_step r (goes_on env m (ap between at) e refl))
Step-SmallReach sha1 s0 {s} (System.finishes m at e to) r = rw to (
    second_half-SmallReach sha1 s0 s.miner m
      (subst (λ pc. SmallReach sha1 s0 (thread (between pc) s.miner)) at r) e)
Step-SmallReach sha1 s0 (System.receives_block msg x e to) r =
    rw to (then_step r (receives_block msg x e refl))
Step-SmallReach sha1 s0 (System.receives_transaction msg to) r =
    rw to (then_step r (receives_transaction msg refl))
Step-SmallReach sha1 s0 {s} (System.gives_peers metadata x e to) r =
    rw to (then_step r (gives_peers s.pc metadata x refl e refl))

Reach-SmallReach :
    (sha1 : Bytes → Bytes) {s t : Node}
    → Reach sha1 s t
    → SmallReach sha1 (in_phases s) (in_phases t)
Reach-SmallReach sha1 here = stays
Reach-SmallReach sha1 {s} (next r st) =
    Step-SmallReach sha1 (in_phases s) st (Reach-SmallReach sha1 r)

-- The second half of a round may be read as one step, though it is long. What a node comes to in
-- small steps, with blocks and transactions arriving between the `pop`, the work on its transaction
-- and any two attempts of the mining loop, is, where it stands between two halves again, exactly
-- what it comes to in whole halves. A call of `GetAddr` falls between halves in both.
pub SmallReach-iff :
    (sha1 : Bytes → Bytes) (pc pc' : Pc) (m m' : Miner)
    → SmallReach sha1 (thread (between pc) m) (thread (between pc') m')
      ↔ Reach sha1 (node pc m) (node pc' m')
SmallReach-iff sha1 pc pc' m m' = (SmallReach-Reach sha1 pc pc' m m', Reach-SmallReach sha1)
