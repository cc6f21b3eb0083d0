-- ===== src/Miner/Bare/Mining.antt =====
-- What the second half of a round of `processing_thread` (peer.cpp) sends.
use blockchain_voting.Base.{
  ℕ, zero, suc, ◌+◌, ◌%◌, ◌^◌, ◌≡◌, refl, sym, ap, subst, ◌∙◌, inl, inr, Bool, false, Option, none,
  some, if◌then◌else◌, Bool-cases, Result, ok, ◌>>=◌, >>=-eq-ok, ok-injective, Bytes, All-append,
}
use mathlib.Core.Option.{some-injective}
use blockchain_voting.Memory.{read_bytes, public_key_size}
use blockchain_voting.Hash.{meets_target}
use blockchain_voting.Block.{Block, Transaction, read_slots, write_slot, rounds}
use blockchain_voting.Finhash.{calculate_finhash}
use blockchain_voting.SyncQueue.{Queue, pop}
use blockchain_voting.Blockchain.{get_head_block}
use blockchain_voting.Client.{broadcast_transaction}
use blockchain_voting.Miner.{
  Miner, append_block, finish_block, try_magic, mine, has_key, take_in, handle_transaction, on_pop,
  second_half, num_magic_to_try,
}
use blockchain_voting.Miner.Bare.{SentEmpty, Bare, SentEmpty-transactions, append_block-Bare}

take_in-Bare : (m m' : Miner) (t : Transaction) → take_in m t ≡ ok m' → Bare m → Bare m'
unfolding take_in broadcast_transaction
take_in-Bare m m' t h v =
    let w = m.working_block in
    let (slots, e, f) = >>=-eq-ok (write_slot w.max_ind t w.transaction_array) _ h in
    subst Bare (ok-injective f) (record {
      queued = v.queued;
      sent = All-append SentEmpty m.sent _ v.sent (SentEmpty-transactions t m.client.peer_clients);
    })

module _ (sha1 : Bytes → Bytes) where
  finish_block-Bare : (m m' : Miner) (w : Block) → finish_block sha1 m w ≡ ok m' → Bare m → Bare m'
  unfolding finish_block
  finish_block-Bare m m' w h v =
      let (head, _, f) = >>=-eq-ok (get_head_block m.bc) _ h in
      let w' : Block = record w { max_ind = 0; prev_block_sha1 = head.finhash } in
      let m0 : Miner = record m { quotafull = false } in
      let (done, e, k) = >>=-eq-ok (append_block m0 w') _ f in
      let u = append_block-Bare m0 done w' e refl (record { queued = v.queued; sent = v.sent }) in
      subst Bare (ok-injective k) (record { queued = u.queued; sent = u.sent })

  try_magic-Bare : (n : ℕ) (m m' : Miner) → try_magic sha1 n m ≡ ok m' → Bare m → Bare m'
  unfolding try_magic
  try_magic-Bare zero m m' h v = subst Bare (ok-injective h) v
  try_magic-Bare (suc n) m m' h v =
      let w = m.working_block in
      let next : Block = record w { magic = (w.magic + 1) % 2 ^ 64 } in
      let (w', _, g) = >>=-eq-ok (calculate_finhash sha1 next) _ h in
      let (hash, _, k) = >>=-eq-ok (read_bytes w'.finhash public_key_size) _ g in
      elim (Bool-cases (meets_target hash)) [
        | inl hit ↦ finish_block-Bare m m' w' (rw hit at k) v
        | inr miss ↦
            try_magic-Bare n (record m { working_block = w' }) m' (rw miss at k)
              (record { queued = v.queued; sent = v.sent })
      ]

  mine-Bare : (m m' : Miner) → mine sha1 m ≡ ok m' → Bare m → Bare m'
  unfolding mine
  mine-Bare m m' h v = elim (Bool-cases m.quotafull) [
    | inl full ↦ try_magic-Bare num_magic_to_try m m' (simp full at h) v
    | inr room ↦ subst Bare (ok-injective (simp room at h)) v
  ]

  handle_transaction-Bare :
      (m m' : Miner) (t : Transaction) → handle_transaction sha1 m t ≡ ok m' → Bare m → Bare m'
  unfolding handle_transaction
  handle_transaction-Bare m m' t h v = elim (Bool-cases (m.bc.voted t.sender_public_key)) [
    | inl old ↦ subst Bare (ok-injective (simp old at h)) v
    | inr new ↦
        let w = m.working_block in
        let (ts, _, f) =
          >>=-eq-ok (read_slots (rounds w.max_ind) w.transaction_array) _ (simp new at h) in
        elim (Bool-cases (has_key t ts)) [
          | inl twice ↦ mine-Bare m m' (rw twice at f) v
          | inr absent ↦
              let (m1, e, k) = >>=-eq-ok (take_in m t) _ (rw absent at f) in
              mine-Bare m1 m' k (take_in-Bare m m1 t e v)
        ]
  ]

  on_pop-Bare :
      (m m' : Miner) (p : Option (Transaction × Queue Transaction))
      → on_pop sha1 m p ≡ ok (some m')
      → Bare m
      → Bare m'
  unfolding on_pop
  on_pop-Bare m m' none h v = cc
  on_pop-Bare m m' (some (t, tq)) h v =
      let (x, run, end) = >>=-eq-ok (handle_transaction sha1 (record m { tq = tq }) t) _ h in
      subst Bare (some-injective _ _ (ok-injective end)) (
        handle_transaction-Bare (record m { tq = tq }) x t run
          (record { queued = v.queued; sent = v.sent }))

  pub second_half-Bare : (m m' : Miner) → second_half sha1 m ≡ ok (some m') → Bare m → Bare m'
  unfolding second_half
  second_half-Bare m m' h v =
      let finished : Miner → Result (Option Miner) = λ x. ok (some x) in
      let branch =
        λ (q : Bool). if q then (mine sha1 m >>= finished) else on_pop sha1 m (pop m.tq) in
      elim (Bool-cases m.quotafull) [
        | inl full ↦
            let (x, run, end) = >>=-eq-ok (mine sha1 m) finished (sym (ap branch full) ∙ h) in
            subst Bare (some-injective _ _ (ok-injective end)) (mine-Bare m x run v)
        | inr room ↦ on_pop-Bare m m' (pop m.tq) (sym (ap branch room) ∙ h) v
      ]
