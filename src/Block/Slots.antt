-- ===== src/Block/Slots.antt =====
-- An array whose first slots are written, as the loops of processor.cpp and peer.cpp leave it.
use blockchain_voting.Base.{
  ℕ, zero, suc, ◌+◌, ◌<◌, ◌≡◌, refl, ◌⊎◌, inl, inr, Option, none, some, List, [], ◌∷◌, ◌++◌, arith,
  length, replicate, length-replicate, ok, err, out_of_bounds, uninitialised,
}
use blockchain_voting.Block.{Transaction, Slots, read_slots, write_slot}

-- `ts` in the first slots, and `free` slots behind them that were never written.
abbrev pub filled : List Transaction → ℕ → Slots
filled [] free = replicate free none
filled (t ∷ ts) free = some t ∷ filled ts free

pub read_slots-filled :
    (ts : List Transaction) (free : ℕ) → read_slots (length ts) (filled ts free) ≡ ok ts
unfolding read_slots
read_slots-filled [] free = refl
read_slots-filled (t ∷ ts) free = rw (read_slots-filled ts free)

-- A loop that runs past the written slots reads one that was never written, or leaves the array.
pub read_slots_past :
    (ts : List Transaction) (free n : ℕ)
    → length ts < n
    → (read_slots n (filled ts free) ≡ err uninitialised)
      ⊎ (read_slots n (filled ts free) ≡ err out_of_bounds)
unfolding read_slots
read_slots_past ts free zero h = absurd (omega arith)
read_slots_past [] zero (suc n) h = inr refl
read_slots_past [] (suc free) (suc n) h = inl refl
read_slots_past (t ∷ ts) free (suc n) h = ground (arith, read_slots_past ts free n)

pub write_slot-filled :
    (ts : List Transaction) (free : ℕ) (t : Transaction)
    → write_slot (length ts) t (filled ts (suc free)) ≡ ok (filled (ts ++ t ∷ []) free)
unfolding write_slot
write_slot-filled [] free t = refl
write_slot-filled (x ∷ ts) free t = rw (write_slot-filled ts free t)

pub write_slot_full :
    (ts : List Transaction) (t : Transaction)
    → write_slot (length ts) t (filled ts 0) ≡ err out_of_bounds
unfolding write_slot
write_slot_full [] t = refl
write_slot_full (x ∷ ts) t = rw (write_slot_full ts t)

pub length-filled : (ts : List Transaction) (free : ℕ) → length (filled ts free) ≡ length ts + free
length-filled [] free = omega (arith, length-replicate {0} {A = Option Transaction} free none)
length-filled (t ∷ ts) free = omega (arith, length-filled ts free)

-- What a loop over the first `n` slots has read stands there.
pub read_slots-length :
    (n : ℕ) (slots : Slots) (ts : List Transaction) → read_slots n slots ≡ ok ts → length ts ≡ n
unfolding read_slots
read_slots-length zero slots [] h = refl
read_slots-length zero slots (t ∷ ts) h = cc
read_slots-length (suc n) [] ts h = cc
read_slots-length (suc n) (none ∷ slots) ts h = cc
read_slots-length (suc n) (some t ∷ slots) [] h = ground arith
read_slots-length (suc n) (some t ∷ slots) (x ∷ ts) h = ground (arith, read_slots-length n slots ts)
