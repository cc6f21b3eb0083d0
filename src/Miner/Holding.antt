-- ===== src/Miner/Holding.antt =====
-- What the working block of `processing_thread` (peer.cpp) holds, and what adding to it keeps.
use blockchain_voting.Base.{
  ℕ, suc, ◌+◌, ◌-◌, ◌≡◌, refl, sym, subst, ◌∙◌, ◌≢◌, Bool, true, false, ◌||◌, List, [], ◌∷◌, ◌++◌,
  arith, ◌==◌, if◌then◌else◌, length, length-append, All, ok, bytes_eq, bytes_eq_comm,
}
use blockchain_voting.Memory.{CharPtr}
use blockchain_voting.Block.{
  Block, Transaction, Slots, num_transactions_per_block, read_slots, write_slot, rounds,
}
use blockchain_voting.Block.Slots.{filled, read_slots-filled, write_slot-filled, length-filled}
use blockchain_voting.Blockchain.{Voted}
use blockchain_voting.Codec.RoundTrip.{rounds-small}
use blockchain_voting.Miner.{has_key}
use blockchain_voting.Miner.Invariant.{Holds, DistinctKeys, HasSlots}

has_key-append :
    (t u : Transaction) (ts : List Transaction)
    → has_key u (ts ++ t ∷ []) ≡ (has_key u ts || bytes_eq u.sender_public_key t.sender_public_key)
has_key-append t u [] = ground arith
has_key-append t u (x ∷ ts) = ground (arith, has_key-append t u ts)

DistinctKeys-append :
    (t : Transaction) (ts : List Transaction)
    → has_key t ts ≡ false
    → DistinctKeys ts
    → DistinctKeys (ts ++ t ∷ [])
DistinctKeys-append t [] h d = (refl, tt)
DistinctKeys-append t (u ∷ ts) h d = (
  ground (arith, has_key-append t u ts, bytes_eq_comm t.sender_public_key u.sender_public_key),
  DistinctKeys-append t ts (ground arith) d.1,
)

All-snoc :
    (voted : Voted) (t : Transaction) (ts : List Transaction)
    → All (λ u. voted u.sender_public_key ≡ false) ts
    → voted t.sender_public_key ≡ false
    → All (λ u. voted u.sender_public_key ≡ false) (ts ++ t ∷ [])
All-snoc voted t [] a h = (h, tt)
All-snoc voted t (u ∷ ts) a h = (a.0, All-snoc voted t ts a.1 h)

module _ {voted : Voted} {quotafull : Bool} {w : Block} {ts : List Transaction} {free : ℕ}
    (h : Holds voted quotafull w ts free) where
  pub read-Holds : read_slots (rounds w.max_ind) w.transaction_array ≡ ok ts
  read-Holds =
      let small = rounds-small (length ts) (let r = h.room in omega arith) in
      rw (h.slots, h.count, small) (read_slots-filled ts free)

  pub HasSlots-Holds : HasSlots w
  HasSlots-Holds = rw h.slots (length-filled ts free ∙ h.room)

  pub full-Holds :
      quotafull ≡ true → read_slots num_transactions_per_block w.transaction_array ≡ ok ts
  full-Holds yes_full =
      let eight : length ts ≡ 8 = (let f = h.full in ground arith) in
      let run = read_slots-filled ts free in rw h.slots (rw eight at run)

  -- With room in it, the working block takes a new voter's transaction behind the others.
  pub take-Holds :
      (t : Transaction)
      → quotafull ≡ false
      → voted t.sender_public_key ≡ false
      → has_key t ts ≡ false
      → (slots : Slots) × (f : ℕ) × (write_slot w.max_ind t w.transaction_array ≡ ok slots)
        × Holds voted
            (if w.max_ind + 1 == num_transactions_per_block then true else quotafull)
            (record w { transaction_array = slots; max_ind = w.max_ind + 1 })
            (ts ++ t ∷ [])
            f
  take-Holds t not_full new absent =
      let short : length ts ≢ 8 = (let f = h.full in ground arith) in
      let room = h.room in
      let count = h.count in
      let len : length (ts ++ t ∷ []) ≡ length ts + 1 = length-append ts (t ∷ []) in
      let f = free - 1 in
      let e : free ≡ suc f = omega arith in
      (
        filled (ts ++ t ∷ []) f,
        f,
        rw (h.slots, h.count)
            (subst (λ k. write_slot (length ts) t (filled ts k) ≡ ok (filled (ts ++ t ∷ []) f))
              (sym e) (write_slot-filled ts f t)),
        record {
          slots = refl;
          room = omega arith;
          count = omega arith;
          full = ground arith;
          fresh = All-snoc voted t ts h.fresh new;
          distinct = DistinctKeys-append t ts absent h.distinct;
        },
      )

-- The same block under other hashes and another `magic`.
pub rehashed-Holds :
    {voted : Voted} {quotafull : Bool} {w : Block} {ts : List Transaction} {free : ℕ} (magic : ℕ)
    (root f : CharPtr)
    → Holds voted quotafull w ts free
    → Holds voted quotafull (record w { magic = magic; merkle_root = root; finhash = f }) ts free
rehashed-Holds magic root f h = record {
  slots = h.slots;
  room = h.room;
  count = h.count;
  full = h.full;
  fresh = h.fresh;
  distinct = h.distinct;
}
