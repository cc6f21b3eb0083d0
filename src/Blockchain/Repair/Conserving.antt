-- ===== src/Blockchain/Repair/Conserving.antt =====
-- What `blockchain::repair_blockchain` (processor.cpp) does to the votes of a node, in the chain
-- and in the queue, as it takes blocks off the chain.
use blockchain_voting.Base.{
  ℕ, zero, suc, ◌≡◌, refl, sym, ap, ap₂, subst, ◌∙◌, ◌⊎◌, inl, inr, true, Option, some, List, [],
  ◌∷◌, ◌++◌, map, append-nil, append_assoc, ◌==◌, if◌then◌else◌, length, take, drop, All, ok,
  ok-injective, All-take,
}
use mathlib.Core.List.{Perm, map-append}
use mathlib.Core.List.Perm
use mathlib.Core.List.Permᴰ
use mathlib.Core.Quot
use blockchain_voting.Block.{Block, Transaction, num_transactions_per_block, read_slots}
use blockchain_voting.SyncQueue.{Queue, push_all}
use blockchain_voting.SyncQueue
use blockchain_voting.Blockchain.{Blockchain, check_if_block_in_chain}
use blockchain_voting.Blockchain.Voters.{IsConsistent}
use blockchain_voting.Blockchain.Tally.{
  BallotBox, of_votes, put_all, vote_in_box, written_in, chain_transactions, read_slots-written,
}
use blockchain_voting.Blockchain.Repair.{Fetch, repair_blockchain}
use blockchain_voting.Blockchain.Repair.Rollback.{
  Rollable, given_back, RolledBack, repair_blockchain_present,
}

-- The votes of a node: those in its chain, and those in its queue.
abbrev pub votes_on : Blockchain → Queue Transaction → BallotBox
votes_on c q = of_votes (map vote_in_box (chain_transactions c.blocks ++ q))

-- A block with all its slots written, and a `max_ind` as in blocks that were mined here, or as in
-- blocks that came with all their transactions.
abbrev pub Sealed : Block → Type 0
Sealed b =
    ((b.max_ind ≡ 0) ⊎ (b.max_ind ≡ num_transactions_per_block))
    × (ts : List Transaction) × (read_slots num_transactions_per_block b.transaction_array ≡ ok ts)

abbrev pub with_zero : List Block → List Block
with_zero [] = []
with_zero (b ∷ bs) = if b.max_ind == 0 then b ∷ with_zero bs else with_zero bs

abbrev Whole : Block → Type 0
Whole b = length b.transaction_array ≡ num_transactions_per_block

Sealed-Rollable : (b : Block) → Sealed b → Rollable b
unfolding read_slots
Sealed-Rollable b (inl e, ts, written) = record {
  ts = ts;
  back = [];
  written = written;
  kept = rw e refl;
}
Sealed-Rollable b (inr e, ts, written) = record {
  ts = ts;
  back = ts;
  written = written;
  kept = rw e written;
}

All-Rollable : (bs : List Block) → All Sealed bs → All Rollable bs
All-Rollable [] s = tt
All-Rollable (b ∷ bs) s = (Sealed-Rollable b s.0, All-Rollable bs s.1)

-- What a block gives back: nothing, or all.
back-cases :
    (b : Block) (r : Rollable b)
    → Whole b
    → Sealed b
    → ((b.max_ind ≡ 0) × (r.back ≡ []))
      ⊎ ((b.max_ind ≡ num_transactions_per_block) × (r.back ≡ written_in b.transaction_array))
unfolding read_slots
back-cases b r w (inl e, _, _) = inl (e, sym (ok-injective (rw e at r.kept)))
back-cases b r w (inr e, _, _) =
    inr (e, sym (read_slots-written 8 b.transaction_array r.back w (rw e at r.kept)))

append_left_comm {ℓ} : {A : Type ℓ} (xs ys zs : List A) → Perm (xs ++ (ys ++ zs)) (ys ++ (xs ++ zs))
append_left_comm xs ys zs =
    subst (λ l. Perm l (ys ++ (xs ++ zs))) (append_assoc xs ys zs)
      (subst (λ l. Perm ((xs ++ ys) ++ zs) l) (append_assoc ys xs zs)
        (Perm.append_right zs ∣ Permᴰ.append_comm xs ys ∣₁))

given_back-Perm :
    (bs : List Block) (rs : All Rollable bs)
    → All Whole bs
    → All Sealed bs
    → Perm (chain_transactions (with_zero bs) ++ given_back bs rs) (chain_transactions bs)
given_back-Perm [] rs w s = Perm.nil
given_back-Perm (b ∷ bs) (r, rs) w s =
    let rest = given_back-Perm bs rs w.1 s.1 in
    elim (back-cases b r w.0 s.0) [
      | inl (e, none_back) ↦
          rw (e, none_back)
            (subst (λ l. Perm l (written_in b.transaction_array ++ chain_transactions bs))
              (sym (
                append_assoc (written_in b.transaction_array) (chain_transactions (with_zero bs))
                  (given_back bs rs)))
              (Perm.append_left (written_in b.transaction_array) rest))
      | inr (e, all_back) ↦
          rw (e, all_back)
            (Perm.trans
              (append_left_comm (chain_transactions (with_zero bs)) (written_in b.transaction_array)
                (given_back bs rs))
              (Perm.append_left (written_in b.transaction_array) rest))
    ]

chain_transactions-split :
    (i : ℕ) (bs : List Block)
    → chain_transactions (take i bs) ++ chain_transactions (drop i bs) ≡ chain_transactions bs
chain_transactions-split zero bs = refl
chain_transactions-split (suc i) [] = refl
chain_transactions-split (suc i) (b ∷ bs) =
    append_assoc (written_in b.transaction_array) (chain_transactions (take i bs))
      (chain_transactions (drop i bs))
    ∙ ap (λ l. written_in b.transaction_array ++ l) (chain_transactions-split i bs)

push_all-append_lem {ℓ} : {A : Type ℓ} (q xs : List A) → push_all q xs ≡ q ++ xs
unfolding push_all SyncQueue.push
push_all-append_lem q [] = sym (append-nil q)
push_all-append_lem q (x ∷ xs) = push_all-append_lem (q ++ x ∷ []) xs ∙ append_assoc q (x ∷ []) xs

-- `lost`, `kept` and the queue, against `taken`, `kept` and the queue before.
rearranged {ℓ} :
    {A : Type ℓ} (lost kept q back taken : List A)
    → Perm (lost ++ back) taken
    → Perm (lost ++ (kept ++ (q ++ back))) ((taken ++ kept) ++ q)
rearranged lost kept q back taken p = Perm.trans (append_left_comm lost kept (q ++ back)) (
    Perm.trans (Perm.append_left kept (append_left_comm lost q back)) (
      Perm.trans (Perm.append_left kept (Perm.append_left q p)) (
        subst (λ l. Perm l ((taken ++ kept) ++ q)) (append_assoc kept q taken)
          (subst (λ l. Perm ((kept ++ q) ++ taken) l) (sym (append_assoc taken kept q))
            ∣ Permᴰ.append_comm (kept ++ q) taken ∣₁))))

module _ (fetch : Fetch) (stack : ℕ → Option Block) where
  -- No vote gets lost or doubled in a repair, but for the blocks that were mined here. In a
  -- consistent chain, where the blocks above the one looked for have all slots written and a
  -- `max_ind` of 8 or 0, `repair_blockchain` returns true, and the votes of the node, in the chain
  -- and in the queue together, are those of before without the votes in the blocks whose `max_ind`
  -- is 0.
  pub repair_blockchain_conserves :
      (fuel i : ℕ) (c : Blockchain) (q : Queue Transaction) (b : Block)
      → check_if_block_in_chain c b ≡ ok (some i)
      → IsConsistent c
      → All Sealed (take i c.blocks)
      → (c' : Blockchain) × (q' : Queue Transaction) × (repair_blockchain fetch stack
            (suc fuel)
            c
            q
            b
          ≡ ok (c', q', true))
        × (put_all
              (map vote_in_box (chain_transactions (with_zero (take i c.blocks))))
              (votes_on c' q')
            ≡ votes_on c q)
        × RolledBack i c c'
  unfolding put_all
  repair_blockchain_conserves fuel i c q b at v s =
      let top = take i c.blocks in
      let rs = All-Rollable top s in
      let (c', run, out) = repair_blockchain_present fetch stack fuel i c q b rs at v in
      let perm =
        rearranged (chain_transactions (with_zero top)) (chain_transactions (drop i c.blocks)) q
          (given_back top rs) (chain_transactions top)
          (given_back-Perm top rs (All-take _ i c.blocks v.whole) s) in
      let after : chain_transactions c'.blocks ++ push_all q (given_back top rs)
          ≡ chain_transactions (drop i c.blocks) ++ (q ++ given_back top rs) =
        ap₂ (λ bs ts. chain_transactions bs ++ ts) out.0
          (push_all-append_lem q (given_back top rs)) in
      (
        c',
        push_all q (given_back top rs),
        run,
        ap of_votes (
              sym (map-append vote_in_box (chain_transactions (with_zero top)) _)
              ∙ ap (λ l. map vote_in_box (chain_transactions (with_zero top) ++ l)) after)
            ∙ Quot.sound (Perm.map vote_in_box perm)
            ∙ ap (λ l. of_votes (map vote_in_box (l ++ q))) (chain_transactions-split i c.blocks),
        out,
      )
