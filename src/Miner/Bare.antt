-- ===== src/Miner/Bare.antt =====
-- What `processing_thread` (peer.cpp) does with blocks that came without transactions, and what it
-- sends.
pub mod Mining
use blockchain_voting.Base.{
  ℕ, zero, suc, ◌+◌, ◌-◌, ◌≡◌, refl, sym, ap, subst, ◌∙◌, inl, inr, Bool, Option, List, [], ◌∷◌,
  ◌++◌, map, ltb, leb, Bool-cases, Option-cases, drop, All, ok, ◌>>=◌, ◌>>◌, assert, read,
  >>=-eq-ok, ok-injective, Bytes, All-append,
}
use blockchain_voting.Block.{Block, Transaction, read_slots, num_transactions_per_block, keys}
use blockchain_voting.Block.Slots.{filled}
use blockchain_voting.SyncQueue.{Queue, pop_nonblocking}
use blockchain_voting.SyncQueue.Order.{pop_nonblocking-All}
use blockchain_voting.Blockchain.{
  Blockchain, Voted, erase_keys, BlockValidityCode, block_ok, prev_block_nonmatch,
  transaction_invalid, remove_transactions_from_set, add_transactions_to_queue,
  check_block_validity, get_head_block,
}
use blockchain_voting.Blockchain.Adding.{numbered}
use blockchain_voting.Blockchain.Validity.{check_block_validity-fresh}
use blockchain_voting.Blockchain.Repair.{
  pop_front, Fetch, rollback, repair_blockchain, find_ancestor, add_each_to_set,
}
use blockchain_voting.Blockchain.Repair.Walk.{find_ancestor-ok}
use blockchain_voting.Codec.{BlockMsg}
use blockchain_voting.Client.{get_block, broadcast_block, send_transaction, SinglePeerClient}
use blockchain_voting.Miner.{
  Miner, Sent, sent_block, sent_transaction, Environment, send_block, append_block, restart, repair,
  handle_block, take_block, first_half, begin_round, take_peers, last_number,
}
use blockchain_voting.Miner.Accepting.{send_block-inv, append_block-inv, restart-inv}
use blockchain_voting.Miner.Finishing.{IsEmpty, broadcast_block-IsEmpty}
use blockchain_voting.Miner.Rounds.{opening-same}

-- A block as it is decoded from a message without transactions.
abbrev pub IsBare : Block → Type 0
IsBare b = (b.max_ind ≡ 0) × (b.transaction_array ≡ filled [] num_transactions_per_block)

abbrev pub SentEmpty : Sent → Type 0
SentEmpty (sent_block p) = IsEmpty p
SentEmpty (sent_transaction p) = Unit {0}

-- Every block in the queue has come without transactions, and every block was sent without.
pub record Bare (m : Miner) : Type 0 where
  pub queued : All IsBare m.bq
  pub sent : All SentEmpty m.sent

SentEmpty-blocks :
    (messages : List (Bytes × BlockMsg))
    → All IsEmpty messages
    → All SentEmpty (map sent_block messages)
SentEmpty-blocks [] a = tt
SentEmpty-blocks (p ∷ messages) a = (a.0, SentEmpty-blocks messages a.1)

pub SentEmpty-transactions :
    (t : Transaction) (ps : List SinglePeerClient)
    → All SentEmpty (map sent_transaction (map (send_transaction t) ps))
SentEmpty-transactions t [] = tt
SentEmpty-transactions t (p ∷ ps) = (tt, SentEmpty-transactions t ps)

sent_block-SentEmpty :
    (m : Miner) (b : Block) (messages : List (Bytes × BlockMsg))
    → b.max_ind ≡ 0
    → broadcast_block m.client b ≡ ok messages
    → All SentEmpty m.sent
    → All SentEmpty (m.sent ++ map sent_block messages)
sent_block-SentEmpty m b messages zero_ind sending a =
    All-append SentEmpty m.sent (map sent_block messages) a
      (SentEmpty-blocks messages (broadcast_block-IsEmpty m.client b messages zero_ind sending))

restart-Bare : (m m' : Miner) → restart m ≡ ok m' → Bare m → Bare m' × (m'.bc ≡ m.bc)
restart-Bare m m' e v =
    let (ts, read, at) = restart-inv m m' e in
    (
      subst Bare (sym at) (record { queued = v.queued; sent = v.sent }),
      ap {A = Miner} (λ x. x.bc) at,
    )

pub append_block-Bare :
    (m m' : Miner) (b : Block) → append_block m b ≡ ok m' → b.max_ind ≡ 0 → Bare m → Bare m'
append_block-Bare m m' b e zero_ind v =
    let (ts, messages, _, _, sending, at) = append_block-inv m m' b e in
    subst Bare (sym at) (record {
      queued = v.queued;
      sent = sent_block-SentEmpty m (numbered m.bc b) messages zero_ind sending v.sent;
    })

-- A cut of the chain, or none.
abbrev pub Shrinks : List Block → List Block → Type 0
Shrinks bs bs' = (i : ℕ) × (bs' ≡ drop i bs)

rollback-drop :
    (i n : ℕ) (bs : List Block) (voted : Voted) (q : Queue Transaction)
    (r : Blockchain × Queue Transaction)
    → rollback i (record { chain_length = n; blocks = bs; voted = voted }) q ≡ ok r
    → r.0.blocks ≡ drop i bs
unfolding rollback remove_transactions_from_set
rollback-drop zero n bs voted q r h = sym (ap (λ p. p.0.blocks) (ok-injective h))
rollback-drop (suc i) n [] voted q r h = cc
rollback-drop (suc i) n (x ∷ bs) voted q r h =
    let c : Blockchain = record { chain_length = n; blocks = x ∷ bs; voted = voted } in
    let (c', e, f) = >>=-eq-ok (remove_transactions_from_set c x) _ h in
    let (q', g, k) = >>=-eq-ok (add_transactions_to_queue q x) _ f in
    let (ts, written, at) =
      >>=-eq-ok (read_slots num_transactions_per_block x.transaction_array) _ e in
    rollback-drop i n bs (erase_keys (keys ts) voted) q' r
      (ap (λ p. rollback i (record p { blocks = pop_front p.blocks }) q') (ok-injective at) ∙ k)

repair_blockchain-Shrinks :
    (fetch : Fetch) (stack : ℕ → Option Block) (fuel : ℕ) (c : Blockchain) (q : Queue Transaction)
    (b : Block) (r : Blockchain × Queue Transaction × Bool)
    → repair_blockchain fetch stack fuel c q b ≡ ok r
    → Shrinks c.blocks r.0.blocks
unfolding repair_blockchain add_each_to_set
repair_blockchain-Shrinks fetch stack fuel c q b r h =
    let (found, e, f) = >>=-eq-ok (find_ancestor fetch stack fuel c b []) _ h in
    let (i, at, same) = find_ancestor-ok fetch stack c b fuel [] found e in
    let (cq, run, k) = >>=-eq-ok (rollback i c q) _ (rw same at f) in
    (
      i,
      sym (ap (λ x. x.0.blocks) (ok-injective k))
          ∙ rollback-drop i c.chain_length c.blocks c.voted q cq run,
    )

abbrev Bares : Miner → Miner → Type 0
Bares m m' = Bare m' × Shrinks m.bc.blocks m'.bc.blocks

stands : (m : Miner) → Bare m → Bares m m
stands m v = (v, (0, refl))

bare_unreadable :
    (b : Block) (ts : List Transaction)
    → IsBare b
    → ¬ (read_slots num_transactions_per_block b.transaction_array ≡ ok ts)
unfolding read_slots
bare_unreadable b ts bare h = let unread = rw (bare.1) at h in cc

module _ (env : Environment) (m m' : Miner) (b : Block) (docontinue : Bool) (v : Bare m)
    (bare : IsBare b) where
  repair-Bares : repair env m b ≡ ok (m', docontinue) → Bares m m'
  unfolding repair
  repair-Bares h =
      let fetch : Fetch = get_block env.blocks m.client in
      let (r, e, f) = >>=-eq-ok (repair_blockchain fetch env.stack env.fuel m.bc m.tq b) _ h in
      let shrunk = repair_blockchain-Shrinks fetch env.stack env.fuel m.bc m.tq b r e in
      let m0 : Miner = record m { bc = r.0; tq = r.1 } in
      elim (Bool-cases r.2) [
        | inl yes_repaired ↦
            let (m1, g, k) = >>=-eq-ok (send_block m0 b) _ (rw yes_repaired at f) in
            let (m2, l, end) = >>=-eq-ok (restart m1) _ k in
            let (messages, sending, at) = send_block-inv m0 m1 b g in
            let v1 : Bare m1 = subst Bare (sym at) (record {
              queued = v.queued;
              sent = sent_block-SentEmpty m b messages bare.0 sending v.sent;
            }) in
            let (v2, same) = restart-Bare m1 m2 l v1 in
            subst (Bares m) (ap (λ p. p.0) (ok-injective end))
              (v2, (shrunk.0, ap (λ c. c.blocks) (same ∙ ap {A = Miner} (λ x. x.bc) at) ∙ shrunk.1))
        | inr not_repaired ↦
            subst (Bares m) (ap (λ p. p.0) (ok-injective (rw not_repaired at f)))
              (record { queued = v.queued; sent = v.sent }, shrunk)
      ]

  handle_block-Bares :
      (code : BlockValidityCode)
      → check_block_validity m.bc b ≡ ok code
      → handle_block env code m b ≡ ok (m', docontinue)
      → Bares m m'
  unfolding handle_block
  handle_block-Bares block_ok valid h =
      let (ts, written, _) = check_block_validity-fresh m.bc b valid in
      absurd (bare_unreadable b ts bare written)
  handle_block-Bares prev_block_nonmatch valid h =
      let (head, e, f) = >>=-eq-ok (get_head_block m.bc) _ h in
      let (n, g, k) = >>=-eq-ok (read b.block_number) _ f in
      let (o, l, p) = >>=-eq-ok (read head.block_number) _ k in
      elim (Bool-cases (ltb o n)) [
        | inl higher ↦
            let (_, _, q) = >>=-eq-ok (assert (leb n last_number)) _ (rw higher at p) in
            repair-Bares q
        | inr lower ↦ subst (Bares m) (ap (λ p. p.0) (ok-injective (rw lower at p))) (stands m v)
      ]
  handle_block-Bares transaction_invalid valid h =
      subst (Bares m) (ap (λ p. p.0) (ok-injective h)) (stands m v)

take_block-Bares :
    (env : Environment) (m m' : Miner) (docontinue : Bool)
    → take_block env m ≡ ok (m', docontinue)
    → Bare m
    → Bares m m'
unfolding take_block
take_block-Bares env m m' docontinue h v = elim (Option-cases (pop_nonblocking m.bq)) [
  | inl e ↦ subst (Bares m) (ap (λ p. p.0) (ok-injective (rw (e, take_block) at h))) (stands m v)
  | inr (popped, e) ↦
      let (bare, rest) = pop_nonblocking-All IsBare m.bq popped.1 popped.0 v.queued e in
      let (code, f, g) =
        >>=-eq-ok (check_block_validity m.bc popped.0) _ (rw (e, take_block) at h) in
      let w : Bare (record m { bq = popped.1 }) = record { queued = rest; sent = v.sent } in
      handle_block-Bares env (record m { bq = popped.1 }) m' popped.0 docontinue w bare code f g
]

-- A first half of a round never adds such a block to the chain.
pub first_half-Bares :
    (env : Environment) (m m' : Miner) (docontinue : Bool)
    → first_half env m ≡ ok (m', docontinue)
    → Bare m
    → Bare m' × Shrinks m.bc.blocks m'.bc.blocks
unfolding first_half
first_half-Bares env m m' docontinue h v =
    let (c, q, l, same) = opening-same env m in
    let o = take_peers (begin_round env m) in
    let opened : Bare (record m { client = c; peerq = q; loop_counter = l }) = record {
      queued = v.queued;
      sent = v.sent;
    } in
    let (w, shrunk) = take_block-Bares env o m' docontinue h (subst Bare (sym same) opened) in
    (w, (shrunk.0, shrunk.1 ∙ ap {A = Miner} (λ x. drop shrunk.0 x.bc.blocks) same))
