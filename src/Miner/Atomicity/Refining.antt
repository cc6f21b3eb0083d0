-- ===== src/Miner/Atomicity/Refining.antt =====
-- The small steps of `processing_thread` (peer.cpp) against its rounds in two halves.
use blockchain_voting.Base.{
  ◌≡◌, refl, sym, ap, subst, ◌∙◌, Option, some, List, [], ◌∷◌, ◌++◌, append-nil, append_assoc, All,
  Result, ok, >>=-eq-ok, ok-injective, Bytes, All-append,
}
use blockchain_voting.Block.{Block, Transaction}
use blockchain_voting.SyncQueue.{push}
use blockchain_voting.Codec.{TransactionMsg, BlockMsg, decode_transaction, decode_block, outlived}
use blockchain_voting.Server
use blockchain_voting.Server.{Shared, Status, status_ok}
use blockchain_voting.Miner.{Miner, handle_transaction, try_magic, second_half}
use blockchain_voting.Miner.System.{
  Pc, at_top, at_pop, Node, node, shared, with_shared, Step, Reach, here, next,
}
use blockchain_voting.Miner.System
use blockchain_voting.Miner.Atomicity.Parts.{finishing}
use blockchain_voting.Miner.Atomicity.{Phase, between, popped, mining}
use blockchain_voting.Miner.Atomicity.Framing.{deliver}

-- Transactions and blocks that messages carry.
abbrev pub FromMessages : List Transaction → Type 0
FromMessages = All (λ t. (msg : TransactionMsg) × (t ≡ decode_transaction msg))

abbrev pub FromBlockMessages : List Block → Type 0
FromBlockMessages =
    All (λ b. (msg : BlockMsg) × (raw : Block) × (decode_block msg ≡ ok raw) × (b ≡ outlived raw))

module _ (sha1 : Bytes → Bytes) (s0 : Node) where
  deliver_transactions-Reach :
      (pc : Pc) (ts : List Transaction) (m : Miner)
      → Reach sha1 s0 (node pc m)
      → FromMessages ts
      → Reach sha1 s0 (node pc (record m { tq = m.tq ++ ts }))
  unfolding Server.broadcast_transaction push
  deliver_transactions-Reach pc [] m r a =
      subst (λ q. Reach sha1 s0 (node pc (record m { tq = q }))) (sym (append-nil m.tq)) r
  deliver_transactions-Reach pc (t ∷ ts) m r ((msg, e), a) =
      let one : Reach sha1 s0 (node pc (record m { tq = m.tq ++ t ∷ [] })) = next r (
        System.receives_transaction msg (ap (λ u. node pc (record m { tq = m.tq ++ u ∷ [] })) e)) in
      subst (λ q. Reach sha1 s0 (node pc (record m { tq = q }))) (append_assoc m.tq (t ∷ []) ts)
        (deliver_transactions-Reach pc ts (record m { tq = m.tq ++ t ∷ [] }) one a)

  deliver_blocks-Reach :
      (pc : Pc) (bs : List Block) (m : Miner)
      → Reach sha1 s0 (node pc m)
      → FromBlockMessages bs
      → Reach sha1 s0 (node pc (record m { bq = m.bq ++ bs }))
  unfolding Server.broadcast_block push
  deliver_blocks-Reach pc [] m r a =
      subst (λ q. Reach sha1 s0 (node pc (record m { bq = q }))) (sym (append-nil m.bq)) r
  deliver_blocks-Reach pc (b ∷ bs) m r ((msg, raw, e, same), a) =
      let got : Shared × Status = (record (shared m) { bq = m.bq ++ b ∷ [] }, status_ok) in
      let one : Reach sha1 s0 (node pc (record m { bq = m.bq ++ b ∷ [] })) =
        next r (System.receives_block msg got (rw (e, same) refl) refl) in
      subst (λ q. Reach sha1 s0 (node pc (record m { bq = q }))) (append_assoc m.bq (b ∷ []) bs)
        (deliver_blocks-Reach pc bs (record m { bq = m.bq ++ b ∷ [] }) one a)

  -- In the middle of a second half: it began at `from`, where nothing had arrived since; without
  -- what has arrived, the miner would be `now`, and the half has the rest to do from there.
  pub record Midway (m : Miner) (rest : Miner → Result (Option Miner)) : Type 0 where
    pub from : Miner
    pub reached : Reach sha1 s0 (node at_pop from)
    pub now : Miner
    pub same : second_half sha1 from ≡ rest now
    pub ts : List Transaction
    pub bs : List Block
    pub messages : FromMessages ts
    pub blocks : FromBlockMessages bs
    pub at : m ≡ deliver ts bs now

  abbrev pub Simulated : Phase → Miner → Type 0
  Simulated (between pc) m = Reach sha1 s0 (node pc m)
  Simulated (popped t) m = Midway m (λ x. finishing (handle_transaction sha1 x t))
  Simulated (mining n) m = Midway m (λ x. finishing (try_magic sha1 n x))

  pub Midway-end :
      (m m' x : Miner) (rest : Miner → Result (Option Miner)) (v : Midway m rest)
      → rest v.now ≡ ok (some x)
      → m' ≡ deliver v.ts v.bs x
      → Reach sha1 s0 (node at_top m')
  Midway-end m m' x rest v e at =
      let ended : Reach sha1 s0 (node at_top x) =
        next v.reached (System.finishes x refl (v.same ∙ e) refl) in
      subst (λ y. Reach sha1 s0 (node at_top y)) (sym at)
        (deliver_blocks-Reach at_top v.bs (record x { tq = x.tq ++ v.ts })
          (deliver_transactions-Reach at_top v.ts x ended v.messages) v.blocks)

  pub Midway-on :
      (m m' x : Miner) (rest rest' : Miner → Result (Option Miner)) (v : Midway m rest)
      → rest v.now ≡ rest' x
      → m' ≡ deliver v.ts v.bs x
      → Midway m' rest'
  Midway-on m m' x rest rest' v e at = record {
    from = v.from;
    reached = v.reached;
    now = x;
    same = v.same ∙ e;
    ts = v.ts;
    bs = v.bs;
    messages = v.messages;
    blocks = v.blocks;
    at = at;
  }

  receives_block-Midway :
      (m : Miner) (rest : Miner → Result (Option Miner)) (msg : BlockMsg) (r : Shared × Status)
      → Server.broadcast_block (shared m) msg ≡ ok r
      → Midway m rest
      → Midway (with_shared m r.0) rest
  unfolding Server.broadcast_block push
  receives_block-Midway m rest msg r e v =
      let (raw, f, g) = >>=-eq-ok (decode_block msg) _ e in
      let b = outlived raw in
      let after : Midway (record m { bq = m.bq ++ b ∷ [] }) rest = record {
        from = v.from;
        reached = v.reached;
        now = v.now;
        same = v.same;
        ts = v.ts;
        bs = v.bs ++ b ∷ [];
        messages = v.messages;
        blocks = All-append _ v.bs (b ∷ []) v.blocks ((msg, raw, f, refl), tt);
        at =
            ap {A = Miner} (λ x. record x { bq = x.bq ++ b ∷ [] }) v.at
            ∙ ap (λ q. record (deliver v.ts v.bs v.now) { bq = q })
                (append_assoc v.now.bq v.bs (b ∷ []));
      } in
      subst (λ s. Midway (with_shared m s) rest) (ap (λ p. p.0) (ok-injective g)) after

  receives_transaction-Midway :
      (m : Miner) (rest : Miner → Result (Option Miner)) (msg : TransactionMsg)
      → Midway m rest
      → Midway (with_shared m (Server.broadcast_transaction (shared m) msg).0) rest
  unfolding Server.broadcast_transaction push
  receives_transaction-Midway m rest msg v =
      let t = decode_transaction msg in
      record {
        from = v.from;
        reached = v.reached;
        now = v.now;
        same = v.same;
        ts = v.ts ++ t ∷ [];
        bs = v.bs;
        messages = All-append _ v.ts (t ∷ []) v.messages ((msg, refl), tt);
        blocks = v.blocks;
        at =
            ap {A = Miner} (λ x. record x { tq = x.tq ++ t ∷ [] }) v.at
            ∙ ap (λ q. record (deliver v.ts v.bs v.now) { tq = q })
                (append_assoc v.now.tq v.ts (t ∷ []));
      }

  -- Where something arrives, the phase stays.
  pub receives_block-Simulated :
      (phase : Phase) (m : Miner) (msg : BlockMsg) (r : Shared × Status)
      → Server.broadcast_block (shared m) msg ≡ ok r
      → Simulated phase m
      → Simulated phase (with_shared m r.0)
  receives_block-Simulated (between pc) m msg r e v = next v (System.receives_block msg r e refl)
  receives_block-Simulated (popped t) m msg r e v = receives_block-Midway m _ msg r e v
  receives_block-Simulated (mining n) m msg r e v = receives_block-Midway m _ msg r e v

  pub receives_transaction-Simulated :
      (phase : Phase) (m : Miner) (msg : TransactionMsg)
      → Simulated phase m
      → Simulated phase (with_shared m (Server.broadcast_transaction (shared m) msg).0)
  receives_transaction-Simulated (between pc) m msg v =
      next v (System.receives_transaction msg refl)
  receives_transaction-Simulated (popped t) m msg v = receives_transaction-Midway m _ msg v
  receives_transaction-Simulated (mining n) m msg v = receives_transaction-Midway m _ msg v
