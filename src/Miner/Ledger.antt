-- ===== src/Miner/Ledger.antt =====
-- The node of peer.cpp and server.cpp as an implementation of a ledger of ballots.
use blockchain_voting.Memory.{CharPtr, c_string}
use blockchain_voting.Codec.{outlived}
use blockchain_voting.Blockchain.{TwoBytes}
use blockchain_voting.Base.{
  ℕ, zero, suc, ◌<◌, ◌≡◌, refl, sym, ap, ◌∙◌, Bool, true, false, ◌||◌, Option, none, some, List, [],
  ◌∷◌, map, length, drop, ok, >>=-eq-ok, ok-injective, Bytes, codes,
}
use blockchain_voting.Block.{Block}
use blockchain_voting.Blockchain.{Blockchain}
use blockchain_voting.Blockchain.Advance.{Advance, stays, grows, cut}
use blockchain_voting.Blockchain.Voters.{block_has, chain_has, mem_new, read_slots-have}
use blockchain_voting.Codec
use blockchain_voting.Codec.{BlockMsg}
use blockchain_voting.Client.{Addresses}
use blockchain_voting.Server
use blockchain_voting.Server.{Shared, Status, answer_addr, find_metadata}
use blockchain_voting.Miner.{Miner}
use blockchain_voting.Miner.Invariant.{Inv}
use blockchain_voting.Miner.Accepting.{first_half-Next}
use blockchain_voting.Miner.Working.{second_half-Next}
use blockchain_voting.Miner.System.{
  start, at_top, Node, node, shared, with_shared, Step, continues, goes_on, finishes,
  receives_block, receives_transaction, gives_peers, Reach, here, next, start-Inv,
}
use blockchain_voting.Miner.Safety.{Reach-Inv}

-- The abstract view of a chain: for each block, newest first, who has voted in it. It forgets the
-- order of the votes, the hashes, and how the blocks are represented.
abbrev pub Ballot : Type 0
Ballot = Bytes → Bool

abbrev pub Ledger : Type 0
Ledger = List Ballot

abbrev pub in_ledger : Bytes → Ledger → Bool
in_ledger j [] = false
in_ledger j (ballot ∷ l) = ballot j || in_ledger j l

abbrev pub ballot_of : Block → Ballot
ballot_of b j = block_has j b

abbrev pub ledger_of : Blockchain → Ledger
ledger_of c = map ballot_of c.blocks

-- What may happen to a ledger: nothing, a ballot of people who have not voted, or the loss of the
-- newest ballots but not of the first.
pub data LedgerStep (l l' : Ledger) : Type 0 where
  idle : l' ≡ l → LedgerStep l l'
  cast :
      (ballot : Ballot)
      → ((j : Bytes) → ballot j ≡ true → in_ledger j l ≡ false)
      → l' ≡ ballot ∷ l
      → LedgerStep l l'
  withdraw : (i : ℕ) → i < length l → l' ≡ drop i l → LedgerStep l l'

pub data LedgerReach (l : Ledger) : Ledger → Type 0 where
  begun : LedgerReach l l
  moved : {l' l'' : Ledger} → LedgerReach l l' → LedgerStep l' l'' → LedgerReach l l''

chain_has-ledger : (j : Bytes) (bs : List Block) → chain_has j bs ≡ in_ledger j (map ballot_of bs)
chain_has-ledger j [] = refl
chain_has-ledger j (b ∷ bs) = rw (chain_has-ledger j bs)

map-drop : (i : ℕ) (bs : List Block) → map ballot_of (drop i bs) ≡ drop i (map ballot_of bs)
map-drop zero bs = refl
map-drop (suc i) [] = refl
map-drop (suc i) (b ∷ bs) = map-drop i bs

length-ledger : (bs : List Block) → length (map ballot_of bs) ≡ length bs
length-ledger [] = refl
length-ledger (b ∷ bs) = ap suc (length-ledger bs)

-- A move of the chain is a step of the ledger.
Advance-LedgerStep :
    (c c' : Blockchain)
    → ((j : Bytes) → c.voted j ≡ chain_has j c.blocks)
    → Advance c c'
    → LedgerStep (ledger_of c) (ledger_of c')
Advance-LedgerStep c c' exact (stays e) = idle (ap ledger_of e)
Advance-LedgerStep c c' exact (grows b ts len written fresh e) =
    cast (ballot_of b)
      (λ j h.
        sym (chain_has-ledger j c.blocks)
        ∙ sym (exact j)
        ∙ mem_new c.voted ts j fresh
            (sym (read_slots-have 8 b.transaction_array ts j len written) ∙ h))
      (ap ledger_of e)
Advance-LedgerStep c c' exact (cut i lt e) =
    withdraw i (rw (length-ledger c.blocks) lt) (ap (map ballot_of) e ∙ map-drop i c.blocks)

pub gives_peers-bc :
    (m : Miner) (it : Option CharPtr) (r : Shared × Status × List Bytes)
    → answer_addr (shared m) (some m.client) it ≡ ok r
    → (with_shared m r.0).bc ≡ m.bc
unfolding answer_addr
gives_peers-bc m none r e = cc
gives_peers-bc m (some value) r e =
    let (addr, _, f) = >>=-eq-ok (c_string value) _ e in
    sym (ap (λ p. (with_shared m p.0).bc) (ok-injective f))

pub receives_block-bc :
    (m : Miner) (block_msg : BlockMsg) (r : Shared × Status)
    → Server.broadcast_block (shared m) block_msg ≡ ok r
    → (with_shared m r.0).bc ≡ m.bc
unfolding Server.broadcast_block
receives_block-bc m block_msg r e =
    let (b, f, g) = >>=-eq-ok (Codec.decode_block block_msg) _ e in
    sym (ap (λ p. (with_shared m p.0).bc) (ok-injective g))

module _ {sha1 : Bytes → Bytes} where
  -- Every step of either thread moves the chain in one of the ways that it can.
  Step-Advance : {s t : Node} → Step sha1 s t → Inv s.miner → Advance s.miner.bc t.miner.bc
  unfolding Server.broadcast_transaction Server.get_addr
  Step-Advance {s} (continues env m at e to) v = rw to (first_half-Next env s.miner m true v e).1
  Step-Advance {s} (goes_on env m at e to) v = rw to (first_half-Next env s.miner m false v e).1
  Step-Advance {s} (finishes m at e to) v = rw to (second_half-Next sha1 s.miner m v e).1
  Step-Advance {s} (receives_block block_msg r e to) v =
      rw to (stays (receives_block-bc s.miner block_msg r e))
  Step-Advance {s} (receives_transaction transaction_msg to) v = rw to (stays refl)
  Step-Advance {s} (gives_peers metadata r e to) v =
      rw to (stays (gives_peers-bc s.miner (find_metadata (codes "address") metadata) r e))

  Reach-LedgerReach :
      {s t : Node}
      → Inv s.miner
      → Reach sha1 s t
      → LedgerReach (ledger_of s.miner.bc) (ledger_of t.miner.bc)
  Reach-LedgerReach v here = begun
  Reach-LedgerReach v (next {t} {u} r st) =
      let w = Reach-Inv v r in
      moved (Reach-LedgerReach v r)
        (Advance-LedgerStep t.miner.bc u.miner.bc w.consistent.exact (Step-Advance st w))

-- A node implements the ledger. Whatever its two threads do, in whatever order: each reachable
-- state shows a ledger that can be reached from the empty ballot of the first block by steps that
-- cast a ballot of people none of whom is in the ledger, or withdraw the newest ballots, and those
-- recorded as having voted are those in the ledger.
pub Reach-refines :
    (sha1 : Bytes → Bytes) (first second : Addresses) (rest : TwoBytes)
    (my_address first_peer : Bytes) (s : Node)
    → Reach sha1 (node at_top (start first second rest my_address first_peer)) s
    → LedgerReach ((λ j. false) ∷ []) (ledger_of s.miner.bc)
      × ((j : Bytes) → s.miner.bc.voted j ≡ in_ledger j (ledger_of s.miner.bc))
Reach-refines sha1 first second rest my_address first_peer s r =
    let v = start-Inv first second rest my_address first_peer in
    (
      Reach-LedgerReach v r,
      λ j. (Reach-Inv v r).consistent.exact j ∙ chain_has-ledger j s.miner.bc.blocks,
    )
