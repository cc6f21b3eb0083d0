-- ===== src/Miner/Genuine/Mining.antt =====
-- Where the transactions go in the second half of a round of `processing_thread` (peer.cpp).
use blockchain_voting.Base.{
  ℕ, zero, suc, ◌+◌, ◌%◌, ◌^◌, ◌≡◌, refl, sym, ap, subst, ◌∙◌, inl, inr, Bool, false, Option, none,
  some, List, [], ◌∷◌, map, if◌then◌else◌, Bool-cases, All, Result, ok, ◌>>=◌, >>=-eq-ok,
  ok-injective, Bytes, All-append,
}
use mathlib.Core.Option.{some-injective}
use blockchain_voting.Memory.{read_bytes, public_key_size}
use blockchain_voting.Hash.{meets_target}
use blockchain_voting.Block.{Block, Transaction, read_slots, write_slot, rounds}
use blockchain_voting.Block.Contents.{Each, write_slot-EachSlot}
use blockchain_voting.Finhash.{calculate_finhash}
use blockchain_voting.Finhash.Laws.{calculate_finhash-keeps}
use blockchain_voting.SyncQueue.{Queue, pop}
use blockchain_voting.SyncQueue.Order.{pop-All}
use blockchain_voting.Blockchain.{get_head_block}
use blockchain_voting.Codec.{TransactionMsg}
use blockchain_voting.Client.{SinglePeerClient, send_transaction, broadcast_transaction}
use blockchain_voting.Miner.{
  Miner, sent_transaction, append_block, finish_block, try_magic, mine, has_key, take_in,
  handle_transaction, on_pop, second_half, num_magic_to_try,
}
use blockchain_voting.Miner.Genuine.{Good, GoodSent, Genuine, Each-new_block, append_block-Genuine}

module _ (Q : TransactionMsg → Type 0) where
  send_transaction-All :
      (t : Transaction) (ps : List SinglePeerClient)
      → Good Q t
      → All (GoodSent Q) (map sent_transaction (map (send_transaction t) ps))
  send_transaction-All t [] g = tt
  send_transaction-All t (p ∷ ps) g = (g, send_transaction-All t ps g)

  take_in-Genuine :
      (m m' : Miner) (t : Transaction) → take_in m t ≡ ok m' → Good Q t → Genuine Q m → Genuine Q m'
  unfolding take_in broadcast_transaction
  take_in-Genuine m m' t h g v =
      let w = m.working_block in
      let (slots, e, f) = >>=-eq-ok (write_slot w.max_ind t w.transaction_array) _ h in
      subst (Genuine Q) (ok-injective f) (record {
        queued = v.queued;
        blocks_queued = v.blocks_queued;
        chain = v.chain;
        working = write_slot-EachSlot (Good Q) w.max_ind t w.transaction_array slots e g v.working;
        sent =
            All-append (GoodSent Q) m.sent _ v.sent
              (send_transaction-All t m.client.peer_clients g);
      })

  module _ (sha1 : Bytes → Bytes) where
    finish_block-Genuine :
        (m m' : Miner) (w : Block)
        → finish_block sha1 m w ≡ ok m'
        → Each (Good Q) w
        → Genuine Q m
        → Genuine Q m'
    unfolding finish_block
    finish_block-Genuine m m' w h g v =
        let (head, _, f) = >>=-eq-ok (get_head_block m.bc) _ h in
        let w' : Block = record w { max_ind = 0; prev_block_sha1 = head.finhash } in
        let start : Genuine Q (record m { quotafull = false }) = record {
          queued = v.queued;
          blocks_queued = v.blocks_queued;
          chain = v.chain;
          working = v.working;
          sent = v.sent;
        } in
        let (done, e, k) = >>=-eq-ok (append_block (record m { quotafull = false }) w') _ f in
        let u = append_block-Genuine Q (record m { quotafull = false }) done w' e g start in
        subst (Genuine Q) (ok-injective k) (record {
          queued = u.queued;
          blocks_queued = u.blocks_queued;
          chain = u.chain;
          working = Each-new_block Q;
          sent = u.sent;
        })

    try_magic-Genuine :
        (n : ℕ) (m m' : Miner) → try_magic sha1 n m ≡ ok m' → Genuine Q m → Genuine Q m'
    unfolding try_magic
    try_magic-Genuine zero m m' h v = subst (Genuine Q) (ok-injective h) v
    try_magic-Genuine (suc n) m m' h v =
        let w = m.working_block in
        let next : Block = record w { magic = (w.magic + 1) % 2 ^ 64 } in
        let (w', f, g) = >>=-eq-ok (calculate_finhash sha1 next) _ h in
        let (hash, _, k) = >>=-eq-ok (read_bytes w'.finhash public_key_size) _ g in
        let (root, fh, at) = calculate_finhash-keeps sha1 next w' f in
        let good : Each (Good Q) w' = subst (Each (Good Q)) (sym at) v.working in
        elim (Bool-cases (meets_target hash)) [
          | inl hit ↦ finish_block-Genuine m m' w' (rw hit at k) good v
          | inr miss ↦
              let next_v : Genuine Q (record m { working_block = w' }) = record {
                queued = v.queued;
                blocks_queued = v.blocks_queued;
                chain = v.chain;
                working = good;
                sent = v.sent;
              } in
              try_magic-Genuine n (record m { working_block = w' }) m' (rw miss at k) next_v
        ]

    mine-Genuine : (m m' : Miner) → mine sha1 m ≡ ok m' → Genuine Q m → Genuine Q m'
    unfolding mine
    mine-Genuine m m' h v = elim (Bool-cases m.quotafull) [
      | inl full ↦ try_magic-Genuine num_magic_to_try m m' (simp full at h) v
      | inr room ↦ subst (Genuine Q) (ok-injective (simp room at h)) v
    ]

    handle_transaction-Genuine :
        (m m' : Miner) (t : Transaction)
        → handle_transaction sha1 m t ≡ ok m'
        → Good Q t
        → Genuine Q m
        → Genuine Q m'
    unfolding handle_transaction
    handle_transaction-Genuine m m' t h g v = elim (Bool-cases (m.bc.voted t.sender_public_key)) [
      | inl old ↦ subst (Genuine Q) (ok-injective (simp old at h)) v
      | inr new ↦
          let w = m.working_block in
          let (ts, _, f) =
            >>=-eq-ok (read_slots (rounds w.max_ind) w.transaction_array) _ (simp new at h) in
          elim (Bool-cases (has_key t ts)) [
            | inl twice ↦ mine-Genuine m m' (rw twice at f) v
            | inr absent ↦
                let (m1, e, k) = >>=-eq-ok (take_in m t) _ (rw absent at f) in
                mine-Genuine m1 m' k (take_in-Genuine m m1 t e g v)
          ]
    ]

    on_pop-Genuine :
        (m m' : Miner) (p : Option (Transaction × Queue Transaction))
        → on_pop sha1 m p ≡ ok (some m')
        → pop m.tq ≡ p
        → Genuine Q m
        → Genuine Q m'
    unfolding on_pop
    on_pop-Genuine m m' none h popped v = cc
    on_pop-Genuine m m' (some (t, tq)) h popped v =
        let (good, rest) = pop-All (Good Q) m.tq tq t v.queued popped in
        let (x, run, end) = >>=-eq-ok (handle_transaction sha1 (record m { tq = tq }) t) _ h in
        let w : Genuine Q (record m { tq = tq }) = record {
          queued = rest;
          blocks_queued = v.blocks_queued;
          chain = v.chain;
          working = v.working;
          sent = v.sent;
        } in
        subst (Genuine Q) (some-injective _ _ (ok-injective end))
          (handle_transaction-Genuine (record m { tq = tq }) x t run good w)

    pub second_half-Genuine :
        (m m' : Miner) → second_half sha1 m ≡ ok (some m') → Genuine Q m → Genuine Q m'
    unfolding second_half
    second_half-Genuine m m' h v =
        let finished : Miner → Result (Option Miner) = λ x. ok (some x) in
        let branch =
          λ (q : Bool). if q then (mine sha1 m >>= finished) else on_pop sha1 m (pop m.tq) in
        elim (Bool-cases m.quotafull) [
          | inl full ↦
              let (x, run, end) = >>=-eq-ok (mine sha1 m) finished (sym (ap branch full) ∙ h) in
              subst (Genuine Q) (some-injective _ _ (ok-injective end)) (mine-Genuine m x run v)
          | inr room ↦ on_pop-Genuine m m' (pop m.tq) (sym (ap branch room) ∙ h) refl v
        ]
