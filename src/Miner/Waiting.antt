-- ===== src/Miner/Waiting.antt =====
-- A processing thread that waits in `tq->pop()` (peer.cpp) while the handlers of server.cpp go on.
use blockchain_voting.Memory.{CharPtr, c_string}
use blockchain_voting.Codec.{outlived}
use blockchain_voting.Server.{Metadata}
use blockchain_voting.Base.{
  append-nil, append_assoc, ◌≡◌, refl, sym, ap, subst, ◌∙◌, false, Option, none, some, List, [],
  ◌∷◌, ◌++◌, ok, >>=-eq-ok, ok-injective, Bytes, codes,
}
use blockchain_voting.Block.{Block}
use blockchain_voting.SyncQueue.{push, pop}
use blockchain_voting.Codec.{TransactionMsg, BlockMsg, decode_block}
use blockchain_voting.Client.{Client, add_new_peer}
use blockchain_voting.Server
use blockchain_voting.Server.{Shared, Status, answer_addr, find_metadata}
use blockchain_voting.Miner.{Miner, on_pop, second_half}
use blockchain_voting.Miner.System.{
  at_pop, Node, node, shared, with_shared, Step, continues, goes_on, finishes, receives_block,
  receives_transaction, gives_peers, Reach, here, next,
}

module _ {sha1 : Bytes → Bytes} where
  -- The transactions and the blocks that arrive along a run.
  abbrev pub transaction_of : {s t : Node} → Step sha1 s t → List TransactionMsg
  transaction_of (receives_transaction m _) = m ∷ []
  transaction_of (continues _ _ _ _ _) = []
  transaction_of (goes_on _ _ _ _ _) = []
  transaction_of (finishes _ _ _ _) = []
  transaction_of (receives_block _ _ _ _) = []
  transaction_of (gives_peers _ _ _ _) = []

  abbrev pub block_of : {s t : Node} → Step sha1 s t → List BlockMsg
  block_of (receives_block m _ _ _) = m ∷ []
  block_of (continues _ _ _ _ _) = []
  block_of (goes_on _ _ _ _ _) = []
  block_of (finishes _ _ _ _) = []
  block_of (receives_transaction _ _) = []
  block_of (gives_peers _ _ _ _) = []

  abbrev pub transactions_received : {s t : Node} → Reach sha1 s t → List TransactionMsg
  transactions_received here = []
  transactions_received (next r st) = transactions_received r ++ transaction_of st

  abbrev pub blocks_received : {s t : Node} → Reach sha1 s t → List BlockMsg
  blocks_received here = []
  blocks_received (next r st) = blocks_received r ++ block_of st

-- The thread waits for a transaction.
pub record IsWaiting (s : Node) : Type 0 where
  pub before_pop : s.pc ≡ at_pop
  pub no_transactions : s.miner.tq ≡ []
  pub room : s.miner.quotafull ≡ false

-- The blocks that these messages leave behind.
abbrev pub AllLeft : List BlockMsg → List Block → Type 0
AllLeft [] [] = Unit {0}
AllLeft [] (b ∷ bs) = ⊥
AllLeft (m ∷ ms) [] = ⊥
AllLeft (m ∷ ms) (b ∷ bs) =
    ((raw : Block) × (decode_block m ≡ ok raw) × (b ≡ outlived raw)) × AllLeft ms bs

-- From `m` to `m'` nothing has happened but that the blocks of these messages have been queued, and
-- peers taken in.
pub record Idled (m m' : Miner) (ms : List BlockMsg) : Type 0 where
  pub bc : m'.bc ≡ m.bc
  pub working_block : m'.working_block ≡ m.working_block
  pub sent : m'.sent ≡ m.sent
  pub peerq : m'.peerq ≡ m.peerq
  pub arrived : List Block
  pub left : AllLeft ms arrived
  pub bq : m'.bq ≡ m.bq ++ arrived

broadcast_block-inv :
    (s : Shared) (m : BlockMsg) (r : Shared × Status)
    → Server.broadcast_block s m ≡ ok r
    → (b : Block) × (decode_block m ≡ ok b) × (r.0 ≡ record s { bq = push s.bq (outlived b) })
unfolding Server.broadcast_block
broadcast_block-inv s m r e =
    let (b, g, f) = >>=-eq-ok (decode_block m) _ e in (b, g, ap (λ x. x.0) (sym (ok-injective f)))

get_addr-inv :
    (s : Shared) (client : Client) (metadata : Metadata) (r : Shared × Status × List Bytes)
    → s.client ≡ some client
    → Server.get_addr s metadata ≡ ok r
    → (c : Client) × (r.0 ≡ record s { client = some c })
unfolding Server.get_addr answer_addr
get_addr-inv s client metadata r at e = go (find_metadata (codes "address") metadata) (rw at at e)
  where
    go :
        (it : Option CharPtr)
        → answer_addr s (some client) it ≡ ok r
        → (c : Client) × (r.0 ≡ record s { client = some c })
    go none f = absurd cc
    go (some value) f =
        let (addr, _, g) = >>=-eq-ok (c_string value) _ f in
        (add_new_peer client addr, ap (λ x. x.0) (sym (ok-injective g)))

push-eq {ℓ} : {A : Type ℓ} (q : List A) (x : A) → push q x ≡ q ++ x ∷ []
unfolding push
push-eq q x = refl

AllLeft-append :
    (ms ms' : List BlockMsg) (bs bs' : List Block)
    → AllLeft ms bs
    → AllLeft ms' bs'
    → AllLeft (ms ++ ms') (bs ++ bs')
AllLeft-append [] ms' [] bs' a b = b
AllLeft-append [] ms' (x ∷ bs) bs' a b = absurd a
AllLeft-append (m ∷ ms) ms' [] bs' a b = absurd a
AllLeft-append (m ∷ ms) ms' (x ∷ bs) bs' a b = (a.0, AllLeft-append ms ms' bs bs' a.1 b)

append_empty {ℓ} : {A : Type ℓ} (xs ys : List A) → xs ++ ys ≡ [] → (xs ≡ []) × (ys ≡ [])
append_empty [] ys e = (refl, e)
append_empty (x ∷ xs) ys e = absurd cc

second_half-waits :
    (sha1 : Bytes → Bytes) (s : Node) → IsWaiting s → second_half sha1 s.miner ≡ ok none
unfolding second_half pop on_pop
second_half-waits sha1 s w = rw (w.room, w.no_transactions)

module _ {sha1 : Bytes → Bytes} where
  Step-Idled :
      {s t : Node}
      → IsWaiting s
      → (st : Step sha1 s t) → transaction_of st ≡ []
      → IsWaiting t × Idled s.miner t.miner (block_of st)
  Step-Idled w (continues env m at e f) none_came = absurd (let b = w.before_pop in cc)
  Step-Idled w (goes_on env m at e f) none_came = absurd (let b = w.before_pop in cc)
  Step-Idled {s} w (finishes m at e f) none_came =
      absurd (let waits = second_half-waits sha1 s w in cc)
  Step-Idled {s} {t} w (receives_block msg r e f) none_came =
      let (raw, decoded, same) = broadcast_block-inv (shared s.miner) msg r e in
      let at : t ≡ node s.pc (record s.miner { bq = push s.miner.bq (outlived raw) }) =
        f ∙ ap (λ x. node s.pc (with_shared s.miner x)) same in
      subst (λ u. IsWaiting u × Idled s.miner u.miner (msg ∷ [])) (sym at)
        (
          record { before_pop = w.before_pop; no_transactions = w.no_transactions; room = w.room },
          record {
            bc = refl;
            working_block = refl;
            sent = refl;
            peerq = refl;
            arrived = outlived raw ∷ [];
            left = ((raw, decoded, refl), tt);
            bq = push-eq s.miner.bq (outlived raw);
          },
        )
  Step-Idled w (receives_transaction msg f) none_came = absurd cc
  Step-Idled {s} {t} w (gives_peers metadata r e f) none_came =
      let (c, same) = get_addr-inv (shared s.miner) s.miner.client metadata r refl e in
      let at : t ≡ node s.pc (record s.miner { client = c }) =
        f ∙ ap (λ x. node s.pc (with_shared s.miner x)) same in
      subst (λ u. IsWaiting u × Idled s.miner u.miner []) (sym at)
        (
          record { before_pop = w.before_pop; no_transactions = w.no_transactions; room = w.room },
          record {
            bc = refl;
            working_block = refl;
            sent = refl;
            peerq = refl;
            arrived = [];
            left = tt;
            bq = sym (append-nil s.miner.bq);
          },
        )

  -- A processing thread that waits for a transaction waits until one arrives: however the handlers
  -- run, without a `BroadcastTransaction` call the thread does not move, the chain and the working
  -- block stay as they are and nothing is sent, while every block that arrives stays at the end of
  -- the queue, unseen: with what its message says, but for four pointers into that message.
  pub Reach-Idled :
      {s t : Node}
      → IsWaiting s
      → (r : Reach sha1 s t) → transactions_received r ≡ []
      → IsWaiting t × Idled s.miner t.miner (blocks_received r)
  Reach-Idled {s} w here none_came = (
    w,
    record {
      bc = refl;
      working_block = refl;
      sent = refl;
      peerq = refl;
      arrived = [];
      left = tt;
      bq = sym (append-nil s.miner.bq);
    },
  )
  Reach-Idled {s} w (next r st) none_came =
      let (before, now) = append_empty (transactions_received r) (transaction_of st) none_came in
      let (w', i) = Reach-Idled w r before in
      let (w'', j) = Step-Idled w' st now in
      (
        w'',
        record {
          bc = j.bc ∙ i.bc;
          working_block = j.working_block ∙ i.working_block;
          sent = j.sent ∙ i.sent;
          peerq = j.peerq ∙ i.peerq;
          arrived = i.arrived ++ j.arrived;
          left = AllLeft-append (blocks_received r) (block_of st) i.arrived j.arrived i.left j.left;
          bq = j.bq ∙ ap (λ q. q ++ j.arrived) i.bq ∙ append_assoc s.miner.bq i.arrived j.arrived;
        },
      )
