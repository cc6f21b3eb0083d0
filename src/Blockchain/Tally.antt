-- ===== src/Blockchain/Tally.antt =====
-- The votes in the chain of `blockchain` (processor.cpp), and how many there are for each choice.
-- The abstract view is a ballot box: the votes without their order.
use blockchain_voting.Base.{
  ℕ, zero, suc, ◌+◌, ◌≡◌, refl, ap, ap₂, ◌∙◌, none, some, List, [], ◌∷◌, ◌++◌, map, arith,
  if◌then◌else◌, length, ok, >>=-eq-ok, ok-injective, Bytes, bytes_eq,
}
use mathlib.Core.Logic.{∥∥₁_elim}
use mathlib.Core.List.{Perm, Permᴰ, map-append}
use mathlib.Core.List.Perm
use mathlib.Core.Quot
use mathlib.Core.Quot.{Quot, Quot-set}
use native.Mathlib.Nat.{ℕ_set}
use blockchain_voting.Block.{Block, Transaction, Slots, num_transactions_per_block, read_slots}
use blockchain_voting.Blockchain.{Blockchain}
use blockchain_voting.Blockchain.Adding.{added}

-- A voter's key, and the choice.
abbrev pub Vote : Type 0
Vote = Bytes × Bytes

abbrev pub vote_in_box : Transaction → Vote
vote_in_box t = (t.sender_public_key, t.vote)

abbrev pub BallotBox : Type 0
BallotBox = Quot (λ (xs : List Vote) (ys : List Vote). Perm xs ys)

abbrev pub of_votes : List Vote → BallotBox
of_votes = Quot.mk

unfoldable pub put_all : List Vote → BallotBox → BallotBox
put_all zs =
    Quot.lift Quot-set (λ xs. of_votes (zs ++ xs)) (λ xs ys h. Quot.sound (Perm.append_left zs h))

-- How many of the votes are for the choice.
abbrev for_choice : Bytes → Vote → ℕ
for_choice choice v = if bytes_eq v.1 choice then 1 else 0

abbrev pub votes_for : Bytes → List Vote → ℕ
votes_for choice [] = 0
votes_for choice (v ∷ vs) = for_choice choice v + votes_for choice vs

votes_for-Permᴰ :
    (choice : Bytes) (xs ys : List Vote) → Permᴰ xs ys → votes_for choice xs ≡ votes_for choice ys
votes_for-Permᴰ choice xs ys Permᴰ.nil = refl
votes_for-Permᴰ choice xs ys (Permᴰ.cons {l₁ = l} {l₂ = k} e d) =
    ap₂ ◌+◌ (ap (for_choice choice) e) (votes_for-Permᴰ choice l k d)
votes_for-Permᴰ choice xs ys (Permᴰ.swap e f) =
    omega (arith, ap (for_choice choice) e, ap (for_choice choice) f)
votes_for-Permᴰ choice xs ys (Permᴰ.trans {l₂ = l} d e) =
    votes_for-Permᴰ choice xs l d ∙ votes_for-Permᴰ choice l ys e

pub votes_for-Perm :
    (choice : Bytes) (xs ys : List Vote) → Perm xs ys → votes_for choice xs ≡ votes_for choice ys
votes_for-Perm choice xs ys p = ∥∥₁_elim p (ℕ_set _ _) (votes_for-Permᴰ choice xs ys)

unfoldable pub tally : Bytes → BallotBox → ℕ
tally choice = Quot.lift ℕ_set (votes_for choice) (votes_for-Perm choice)

pub put_all_any_order :
    (xs ys : List Vote) (b : BallotBox) → Perm xs ys → put_all xs b ≡ put_all ys b
unfolding put_all
put_all_any_order xs ys b p =
    Quot.ind (λ b. Quot-set (put_all xs b) (put_all ys b))
      (λ zs. Quot.sound (Perm.append_right zs p)) b

votes_for-append :
    (choice : Bytes) (xs ys : List Vote)
    → votes_for choice (xs ++ ys) ≡ votes_for choice xs + votes_for choice ys
votes_for-append choice [] ys = omega arith
votes_for-append choice (x ∷ xs) ys = omega (arith, votes_for-append choice xs ys)

pub tally-put_all :
    (choice : Bytes) (xs : List Vote) (b : BallotBox)
    → tally choice (put_all xs b) ≡ votes_for choice xs + tally choice b
unfolding tally put_all
tally-put_all choice xs = Quot.ind (λ b. ℕ_set _ _) (λ ys. votes_for-append choice xs ys)

-- The transactions in the written slots of a block, and of the blocks of a chain, newest first.
abbrev pub written_in : Slots → List Transaction
written_in [] = []
written_in (none ∷ slots) = written_in slots
written_in (some t ∷ slots) = t ∷ written_in slots

abbrev pub chain_transactions : List Block → List Transaction
chain_transactions [] = []
chain_transactions (b ∷ bs) = written_in b.transaction_array ++ chain_transactions bs

abbrev pub box_of : Blockchain → BallotBox
box_of c = of_votes (map vote_in_box (chain_transactions c.blocks))

pub read_slots-written :
    (n : ℕ) (slots : Slots) (ts : List Transaction)
    → length slots ≡ n
    → read_slots n slots ≡ ok ts
    → written_in slots ≡ ts
unfolding read_slots
read_slots-written zero [] ts len h = ok-injective h
read_slots-written zero (x ∷ slots) ts len h = absurd (omega arith)
read_slots-written (suc n) [] ts len h = cc
read_slots-written (suc n) (none ∷ slots) ts len h = cc
read_slots-written (suc n) (some t ∷ slots) ts len h =
    let (rest, e, f) = >>=-eq-ok (read_slots n slots) _ h in
    ap (◌∷◌ t) (read_slots-written n slots rest (omega arith) e) ∙ ok-injective f

-- A block that is added to the chain adds its eight votes to the box, whatever their order, and to
-- the count of each choice.
pub box_of-added :
    (c : Blockchain) (b : Block) (ts us : List Transaction)
    → length b.transaction_array ≡ num_transactions_per_block
    → read_slots num_transactions_per_block b.transaction_array ≡ ok ts
    → Perm (map vote_in_box ts) (map vote_in_box us)
    → (box_of (added c b ts) ≡ put_all (map vote_in_box us) (box_of c))
      × ((choice : Bytes)
          → tally choice (box_of (added c b ts))
            ≡ votes_for choice (map vote_in_box us) + tally choice (box_of c))
unfolding put_all
box_of-added c b ts us len e p =
    let is : written_in b.transaction_array ≡ ts =
      read_slots-written 8 b.transaction_array ts len e in
    let bs = chain_transactions c.blocks in
    let split : map vote_in_box (written_in b.transaction_array ++ bs)
        ≡ map vote_in_box ts ++ map vote_in_box bs =
      ap (λ xs. map vote_in_box (xs ++ bs)) is ∙ map-append vote_in_box ts bs in
    let same : box_of (added c b ts) ≡ put_all (map vote_in_box us) (box_of c) =
      ap of_votes split
      ∙ put_all_any_order (map vote_in_box ts) (map vote_in_box us) (box_of c) p in
    (same, λ choice. ap (tally choice) same ∙ tally-put_all choice (map vote_in_box us) (box_of c))
