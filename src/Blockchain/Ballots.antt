-- ===== src/Blockchain/Ballots.antt =====
-- Which votes a count of the chain of `blockchain` (processor.cpp) may see, against the votes cast.
use blockchain_voting.Base.{
  ℕ, zero, suc, ◌≤◌, ◌≡◌, refl, sym, ap, ap₂, subst, ◌∙◌, ◌≢◌, inl, inr, Bool, true, false, ◌&&◌,
  ◌||◌, none, some, List, [], ◌∷◌, ◌++◌, map, arith, if◌then◌else◌, Bool-cases, drop, All, Bytes,
  bytes_eq, bytes_eq_refl, eq_of_bytes_eq,
}
use mathlib.Core.List.{Memᴰ}
use blockchain_voting.Block.{Block, Transaction, Slots}
use blockchain_voting.Blockchain.Voters.{slots_have, chain_has}
use blockchain_voting.Blockchain.Tally.{
  vote_in_box, Vote, votes_for, written_in, chain_transactions,
}

-- Whether a key is among these votes.
abbrev pub key_in : Bytes → List Transaction → Bool
key_in j [] = false
key_in j (t ∷ ts) = bytes_eq t.sender_public_key j || key_in j ts

-- No key occurs twice.
abbrev pub OneEach : List Transaction → Type 0
OneEach [] = Unit {0}
OneEach (t ∷ ts) = (key_in t.sender_public_key ts ≡ false) × OneEach ts

pub key_in-append :
    (j : Bytes) (ts us : List Transaction) → key_in j (ts ++ us) ≡ (key_in j ts || key_in j us)
key_in-append j [] us = refl
key_in-append j (t ∷ ts) us = ground (arith, key_in-append j ts us)

pub OneEach-append :
    (ts us : List Transaction)
    → OneEach ts
    → OneEach us
    → All (λ t. key_in t.sender_public_key us ≡ false) ts
    → OneEach (ts ++ us)
OneEach-append [] us d e a = e
OneEach-append (t ∷ ts) us d e a = (
  ground (arith, key_in-append t.sender_public_key ts us, d.0, a.0),
  OneEach-append ts us d.1 e a.1,
)

OneEach-behind : (ts us : List Transaction) → OneEach (ts ++ us) → OneEach us
OneEach-behind [] us d = d
OneEach-behind (t ∷ ts) us d = OneEach-behind ts us d.1

pub OneEach-drop :
    (i : ℕ) (bs : List Block)
    → OneEach (chain_transactions bs)
    → OneEach (chain_transactions (drop i bs))
OneEach-drop zero bs d = d
OneEach-drop (suc i) [] d = d
OneEach-drop (suc i) (b ∷ bs) d =
    OneEach-drop i bs (OneEach-behind (written_in b.transaction_array) (chain_transactions bs) d)

slots_have-eq : (j : Bytes) (slots : Slots) → key_in j (written_in slots) ≡ slots_have j slots
slots_have-eq j [] = refl
slots_have-eq j (none ∷ slots) = slots_have-eq j slots
slots_have-eq j (some t ∷ slots) =
    ap (λ b. bytes_eq t.sender_public_key j || b) (slots_have-eq j slots)

pub chain_has-eq : (j : Bytes) (bs : List Block) → key_in j (chain_transactions bs) ≡ chain_has j bs
chain_has-eq j [] = refl
chain_has-eq j (b ∷ bs) =
    key_in-append j (written_in b.transaction_array) (chain_transactions bs)
    ∙ ap₂ ◌||◌ (slots_have-eq j b.transaction_array) (chain_has-eq j bs)

module _ {A : Type 0} where
  -- The list without this element.
  abbrev without : {x : A} (xs : List A) → Memᴰ x xs → List A
  without [] m = []
  without (y ∷ xs) (Memᴰ.head e) = xs
  without (y ∷ xs) (Memᴰ.tail m) = y ∷ without xs m

  without-Mem : {x z : A} (xs : List A) (m : Memᴰ x xs) → Memᴰ z xs → z ≢ x → Memᴰ z (without xs m)
  without-Mem [] m n other = elim m [ ]
  without-Mem (y ∷ xs) (Memᴰ.head e) (Memᴰ.head f) other = absurd (other (f ∙ sym e))
  without-Mem (y ∷ xs) (Memᴰ.head e) (Memᴰ.tail n) other = n
  without-Mem (y ∷ xs) (Memᴰ.tail m) (Memᴰ.head f) other = Memᴰ.head f
  without-Mem (y ∷ xs) (Memᴰ.tail m) (Memᴰ.tail n) other = Memᴰ.tail (without-Mem xs m n other)

-- Taking a vote out of a list takes it out of the count.
votes_for-without :
    (choice : Bytes) {x : Vote} (xs : List Vote) (m : Memᴰ x xs)
    → votes_for choice xs ≡ votes_for choice (x ∷ without xs m)
votes_for-without choice [] m = elim m [ ]
votes_for-without choice (y ∷ xs) (Memᴰ.head e) = ap (λ z. votes_for choice (z ∷ xs)) (sym e)
votes_for-without choice (y ∷ xs) (Memᴰ.tail m) = omega (arith, votes_for-without choice xs m)

bytes_eq-false : (a b : Bytes) → bytes_eq a b ≡ false → a ≢ b
bytes_eq-false a b h e = let k = bytes_eq_refl b in let h' = rw e at h in cc

others_differ :
    (t : Transaction) (ts : List Transaction)
    → key_in t.sender_public_key ts ≡ false
    → All (λ u. vote_in_box u ≢ vote_in_box t) ts
others_differ t [] h = tt
others_differ t (u ∷ ts) h = (
  λ e. bytes_eq-false u.sender_public_key t.sender_public_key (ground arith) (ap (λ v. v.0) e),
  others_differ t ts (ground arith),
)

still_in :
    (x : Vote) (xs : List Vote) (m : Memᴰ x xs) (ts : List Transaction)
    → All (λ u. Memᴰ (vote_in_box u) xs) ts
    → All (λ u. vote_in_box u ≢ x) ts
    → All (λ u. Memᴰ (vote_in_box u) (without xs m)) ts
still_in x xs m [] a d = tt
still_in x xs m (u ∷ ts) a d = (without-Mem xs m a.0 d.0, still_in x xs m ts a.1 d.1)

-- Votes with a key each, all of which were cast, are no more than were cast.
pub votes_for-le :
    (choice : Bytes) (ts : List Transaction) (cast : List Vote)
    → OneEach ts
    → All (λ t. Memᴰ (vote_in_box t) cast) ts
    → votes_for choice (map vote_in_box ts) ≤ votes_for choice cast
votes_for-le choice [] cast d a = omega arith
votes_for-le choice (t ∷ ts) cast d a =
    let rest = without cast a.0 in
    let more =
      votes_for-le choice ts rest d.1
        (still_in (vote_in_box t) cast a.0 ts a.1 (others_differ t ts d.0)) in
    omega (arith, votes_for-without choice cast a.0)

-- Whether a vote is among these, and the list with each vote once.
abbrev pub same_vote : Vote → Vote → Bool
same_vote u v = bytes_eq u.0 v.0 && bytes_eq u.1 v.1

abbrev pub vote_in : Vote → List Vote → Bool
vote_in v [] = false
vote_in v (u ∷ us) = same_vote u v || vote_in v us

abbrev pub each_once : List Vote → List Vote
each_once [] = []
each_once (v ∷ vs) = if vote_in v vs then each_once vs else v ∷ each_once vs

same_vote-eq : (u v : Vote) → same_vote u v ≡ true → v ≡ u
same_vote-eq u v h =
    let key : bytes_eq u.0 v.0 ≡ true = ground arith in
    let choice : bytes_eq u.1 v.1 ≡ true = ground arith in
    ap₂ (λ k c. (k, c)) (sym (eq_of_bytes_eq u.0 v.0 key)) (sym (eq_of_bytes_eq u.1 v.1 choice))

vote_in-Mem : (v : Vote) (vs : List Vote) → vote_in v vs ≡ true → Memᴰ v vs
vote_in-Mem v [] h = cc
vote_in-Mem v (u ∷ us) h = elim (Bool-cases (same_vote u v)) [
  | inl same ↦ Memᴰ.head (same_vote-eq u v same)
  | inr other ↦ Memᴰ.tail (vote_in-Mem v us (rw other at h))
]

pub each_once-Mem : (x : Vote) (vs : List Vote) → Memᴰ x vs → Memᴰ x (each_once vs)
each_once-Mem x [] m = elim m [ ]
each_once-Mem x (v ∷ vs) (Memᴰ.head e) = elim (Bool-cases (vote_in v vs)) [
  | inl again ↦
      rw again (each_once-Mem x vs (subst (λ y. Memᴰ y vs) (sym e) (vote_in-Mem v vs again)))
  | inr last ↦ rw last (Memᴰ.head e)
]
each_once-Mem x (v ∷ vs) (Memᴰ.tail m) = elim (Bool-cases (vote_in v vs)) [
  | inl again ↦ rw again (each_once-Mem x vs m)
  | inr last ↦ rw last (Memᴰ.tail (each_once-Mem x vs m))
]
