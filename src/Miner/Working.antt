-- ===== src/Miner/Working.antt =====
-- The working block of `processing_thread` (peer.cpp): taking transactions in, and mining.
use blockchain_voting.Base.{
  ℕ, zero, suc, ◌+◌, ◌%◌, ◌^◌, ◌≡◌, refl, sym, ap, subst, ◌∙◌, inl, inr, Bool, true, false, Option,
  none, some, List, [], ◌∷◌, ◌++◌, map, ◌==◌, if◌then◌else◌, Bool-cases, All, Result, ok, ◌>>=◌,
  >>=-eq-ok, ok-injective, Bytes,
}
use mathlib.Core.Option.{some-injective}
use blockchain_voting.Memory.{read_bytes, public_key_size}
use blockchain_voting.Hash.{meets_target}
use blockchain_voting.Block.{Block, Transaction, Slots, new_block, num_transactions_per_block}
use blockchain_voting.Finhash.{calculate_finhash}
use blockchain_voting.Finhash.Laws.{calculate_finhash-keeps}
use blockchain_voting.SyncQueue.{Queue, pop}
use blockchain_voting.Blockchain.{get_head_block}
use blockchain_voting.Blockchain.Adding.{added}
use blockchain_voting.Blockchain.Validity.{added-IsConsistent}
use blockchain_voting.Client.{broadcast_transaction}
use blockchain_voting.Miner.{
  Miner, sent_block, sent_transaction, append_block, finish_block, try_magic, mine, has_key,
  take_in, handle_transaction, on_pop, second_half, num_magic_to_try,
}
use blockchain_voting.Miner.Invariant.{
  Inv, Holds, DistinctKeys, Next, Done, unmoved, mined, Mined-Advance, new_block-IsWorking,
}
use blockchain_voting.Miner.Accepting.{append_block-inv}
use blockchain_voting.Miner.Holding.{
  read-Holds, HasSlots-Holds, full-Holds, take-Holds, rehashed-Holds,
}

remade-Inv :
    (m : Miner) (w : Block) (ts : List Transaction) (free : ℕ)
    → Inv m
    → m.quotafull ≡ true
    → Holds m.bc.voted true w ts free
    → Inv (record m { working_block = w })
remade-Inv m w ts free v full h = record {
  consistent = v.consistent;
  limited = v.limited;
  network = v.network;
  working = record {
    ts = ts;
    free = free;
    holds = subst (λ (q : Bool). Holds m.bc.voted q w ts free) (sym full) h;
  };
  queued = v.queued;
}

module _ (sha1 : Bytes → Bytes) where
  -- Finishing a full working block adds it to the chain, emptied of its `max_ind`, on top of the
  -- head, within the limit on numbers.
  finish_block-Done :
      (m m' : Miner) (w : Block) (ts : List Transaction) (free : ℕ)
      → Inv m
      → Holds m.bc.voted true w ts free
      → finish_block sha1 m w ≡ ok m'
      → Done m m'
  unfolding finish_block
  finish_block-Done m m' w ts free v h e =
      let (head, _, f) = >>=-eq-ok (get_head_block m.bc) _ e in
      let w' : Block = record w { max_ind = 0; prev_block_sha1 = head.finhash } in
      let (done, g, k) = >>=-eq-ok (append_block (record m { quotafull = false }) w') _ f in
      let (us, messages, written, low, _, at) =
        append_block-inv (record m { quotafull = false }) done w' g in
      let same : ts ≡ us = ok-injective (sym (full-Holds h refl) ∙ written) in
      let new = subst (All (λ t. m.bc.voted t.sender_public_key ≡ false)) same h.fresh in
      let chain = added-IsConsistent m.bc w' us v.consistent (HasSlots-Holds h) written new in
      let last : m' ≡ record m {
        quotafull = false;
        bc = added m.bc w' us;
        sent = m.sent ++ map sent_block messages;
        working_block = new_block;
      } =
        sym (ok-injective k)
        ∙ ap {A = Miner} {B = Miner} (λ x. record x { working_block = new_block }) at in
      subst (Done m) (sym last) (
        record {
          consistent = chain;
          limited = low;
          network = v.network;
          working = new_block-IsWorking (added m.bc w' us).voted;
          queued = v.queued;
        },
        mined w' us (HasSlots-Holds h) written new (subst DistinctKeys same h.distinct) refl,
      )

  try_magic-Done :
      (n : ℕ) (m m' : Miner) → Inv m → m.quotafull ≡ true → try_magic sha1 n m ≡ ok m' → Done m m'
  unfolding try_magic
  try_magic-Done zero m m' v full e = subst (Done m) (ok-injective e) (v, unmoved refl)
  try_magic-Done (suc n) m m' v full e =
      let w = m.working_block in
      let next : Block = record w { magic = (w.magic + 1) % 2 ^ 64 } in
      let (w', f, g) = >>=-eq-ok (calculate_finhash sha1 next) _ e in
      let (hash, _, k) = >>=-eq-ok (read_bytes w'.finhash public_key_size) _ g in
      let (root, fh, at) = calculate_finhash-keeps sha1 next w' f in
      let ts = v.working.ts in
      let free = v.working.free in
      let held = subst (λ (q : Bool). Holds m.bc.voted q w ts free) full v.working.holds in
      let made : Holds m.bc.voted true w' ts free =
        subst (λ x. Holds m.bc.voted true x ts free) (sym at)
          (rehashed-Holds next.magic root fh held) in
      elim (Bool-cases (meets_target hash)) [
        | inl hit ↦ finish_block-Done m m' w' ts free v made (rw hit at k)
        | inr miss ↦
            let w = remade-Inv m w' ts free v full made in
            try_magic-Done n (record m { working_block = w' }) m' w full (rw miss at k)
      ]

  mine-Done : (m m' : Miner) → Inv m → mine sha1 m ≡ ok m' → Done m m'
  unfolding mine
  mine-Done m m' v e = elim (Bool-cases m.quotafull) [
    | inl full ↦ try_magic-Done num_magic_to_try m m' v full (simp full at e)
    | inr room ↦ subst (Done m) (ok-injective (simp room at e)) (v, unmoved refl)
  ]

-- The miner after `take_in` has written to the slots.
abbrev took_in : Miner → Transaction → Slots → Miner
took_in m t slots =
    let w = m.working_block in
    record m {
      working_block = record w { transaction_array = slots; max_ind = w.max_ind + 1 };
      sent = m.sent ++ map sent_transaction (broadcast_transaction m.client t);
      quotafull = if w.max_ind + 1 == num_transactions_per_block then true else m.quotafull;
    }

take_in-took_in :
    (m : Miner) (t : Transaction)
    → (v : Inv m) → m.quotafull ≡ false
    → m.bc.voted t.sender_public_key ≡ false
    → has_key t v.working.ts ≡ false
    → (slots : Slots) × (take_in m t ≡ ok (took_in m t slots)) × Inv (took_in m t slots)
unfolding take_in
take_in-took_in m t v room new absent =
    let (slots, f, wrote, held) = take-Holds v.working.holds t room new absent in
    (
      slots,
      simp wrote,
      record {
        consistent = v.consistent;
        limited = v.limited;
        network = v.network;
        working = record { ts = v.working.ts ++ t ∷ []; free = f; holds = held };
        queued = v.queued;
      },
    )

-- Under the invariant, with room in the working block, a transaction whose voter has neither voted
-- in the chain nor stands in the working block is taken in: nothing goes wrong, and the invariant
-- holds afterwards.
pub take_in-Inv :
    (m : Miner) (t : Transaction)
    → (v : Inv m) → m.quotafull ≡ false
    → m.bc.voted t.sender_public_key ≡ false
    → has_key t v.working.ts ≡ false
    → (m' : Miner) × (take_in m t ≡ ok m') × Inv m'
take_in-Inv m t v room new absent =
    let (slots, took, w) = take_in-took_in m t v room new absent in (took_in m t slots, took, w)

abbrev finished : Miner → Result (Option Miner)
finished m = ok (some m)

popped-Inv : (m : Miner) (q : Queue Transaction) → Inv m → Inv (record m { tq = q })
popped-Inv m q v = record {
  consistent = v.consistent;
  limited = v.limited;
  network = v.network;
  working = v.working;
  queued = v.queued;
}

module _ (sha1 : Bytes → Bytes) where
  handle_transaction-Done :
      (m m' : Miner) (t : Transaction)
      → Inv m
      → m.quotafull ≡ false
      → handle_transaction sha1 m t ≡ ok m'
      → Done m m'
  unfolding handle_transaction
  handle_transaction-Done m m' t v room e = elim (Bool-cases (m.bc.voted t.sender_public_key)) [
    | inl old ↦ subst (Done m) (ok-injective (simp old at e)) (v, unmoved refl)
    | inr new ↦
        let run = read-Holds v.working.holds in
        elim (Bool-cases (has_key t v.working.ts)) [
          | inl twice ↦ mine-Done sha1 m m' v (simp (new, run, twice) at e)
          | inr absent ↦
              let (slots, took, w) = take_in-took_in m t v room new absent in
              mine-Done sha1 (took_in m t slots) m' w (simp (new, run, absent, took) at e)
        ]
  ]

  on_pop-Done :
      (m m' : Miner) (p : Option (Transaction × Queue Transaction))
      → Inv m
      → m.quotafull ≡ false
      → on_pop sha1 m p ≡ ok (some m')
      → Done m m'
  unfolding on_pop
  on_pop-Done m m' none v room e = cc
  on_pop-Done m m' (some (t, tq)) v room e =
      let m1 : Miner = record m { tq = tq } in
      let (x, run, end) = >>=-eq-ok (handle_transaction sha1 m1 t) finished e in
      subst (Done m) (some-injective _ _ (ok-injective end))
        (handle_transaction-Done m1 x t (popped-Inv m tq v) room run)

  pub second_half-Done : (m m' : Miner) → Inv m → second_half sha1 m ≡ ok (some m') → Done m m'
  unfolding second_half
  second_half-Done m m' v e =
      let branch =
        λ (q : Bool). if q then (mine sha1 m >>= finished) else on_pop sha1 m (pop m.tq) in
      elim (Bool-cases m.quotafull) [
        | inl full ↦
            let (x, run, end) = >>=-eq-ok (mine sha1 m) finished (sym (ap branch full) ∙ e) in
            subst (Done m) (some-injective _ _ (ok-injective end)) (mine-Done sha1 m x v run)
        | inr room ↦ on_pop-Done m m' (pop m.tq) v room (sym (ap branch room) ∙ e)
      ]

  pub second_half-Next : (m m' : Miner) → Inv m → second_half sha1 m ≡ ok (some m') → Next m m'
  second_half-Next m m' v e = let (w, moved) = second_half-Done m m' v e in (w, Mined-Advance moved)

  -- A second half of a round that ends without an error keeps the invariant, on every branch:
  -- throwing a transaction out, taking it in, mining.
  pub second_half-Inv : (m m' : Miner) → Inv m → second_half sha1 m ≡ ok (some m') → Inv m'
  second_half-Inv m m' v e = (second_half-Done m m' v e).0
