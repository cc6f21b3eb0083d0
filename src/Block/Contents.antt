-- ===== src/Block/Contents.antt =====
-- What holds of the transactions in the slots of a block (processor.hpp), and the loops that copy
-- them.
use blockchain_voting.Base.{
  ℕ, zero, suc, ◌≡◌, subst, none, some, List, [], ◌∷◌, replicate, All, ok, >>=-eq-ok, ok-injective,
}
use blockchain_voting.Block.{Block, Transaction, Slots, read_slots, write_slot}

module _ {κ} (P : Transaction → Type κ) where
  -- Of each transaction in a written slot.
  abbrev pub EachSlot : Slots → Type κ
  EachSlot [] = Unit
  EachSlot (none ∷ slots) = EachSlot slots
  EachSlot (some t ∷ slots) = P t × EachSlot slots

  abbrev pub Each : Block → Type κ
  Each b = EachSlot b.transaction_array

  pub read_slots-EachSlot :
      (n : ℕ) (slots : Slots) (ts : List Transaction)
      → read_slots n slots ≡ ok ts
      → EachSlot slots
      → All P ts
  unfolding read_slots
  read_slots-EachSlot zero slots ts e h = subst (All P) (ok-injective e) tt
  read_slots-EachSlot (suc n) [] ts e h = cc
  read_slots-EachSlot (suc n) (none ∷ slots) ts e h = cc
  read_slots-EachSlot (suc n) (some t ∷ slots) ts e h =
      let (rest, f, g) = >>=-eq-ok (read_slots n slots) _ e in
      subst (All P) (ok-injective g) (h.0, read_slots-EachSlot n slots rest f h.1)

  pub write_slot-EachSlot :
      (i : ℕ) (t : Transaction) (slots out : Slots)
      → write_slot i t slots ≡ ok out
      → P t
      → EachSlot slots
      → EachSlot out
  unfolding write_slot
  write_slot-EachSlot i t [] out e p h = cc
  write_slot-EachSlot zero t (none ∷ slots) out e p h = subst EachSlot (ok-injective e) (p, h)
  write_slot-EachSlot zero t (some x ∷ slots) out e p h = subst EachSlot (ok-injective e) (p, h.1)
  write_slot-EachSlot (suc i) t (none ∷ slots) out e p h =
      let (rest, f, g) = >>=-eq-ok (write_slot i t slots) _ e in
      subst EachSlot (ok-injective g) (write_slot-EachSlot i t slots rest f p h)
  write_slot-EachSlot (suc i) t (some x ∷ slots) out e p h =
      let (rest, f, g) = >>=-eq-ok (write_slot i t slots) _ e in
      subst EachSlot (ok-injective g) (h.0, write_slot-EachSlot i t slots rest f p h.1)

  pub EachSlot-replicate : (n : ℕ) → EachSlot (replicate n none)
  EachSlot-replicate zero = tt
  EachSlot-replicate (suc n) = EachSlot-replicate n
