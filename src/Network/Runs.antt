-- ===== src/Network/Runs.antt =====
-- Rounds of one node (peer.cpp) and runs of booths (voting-booth.cpp) as runs of a network.
use blockchain_voting.Base.{
  ℕ, ◌≡◌, refl, sym, ap, subst, ◌∙◌, inl, inr, Bool, true, false, some, List, [], ◌∷◌, ◌++◌, map,
  append-nil, append_assoc, if◌then◌else◌, Bool-cases, Option-cases, All, ok, >>=-eq-ok,
  ok-injective, Bytes, bytes_eq, mem, All-append, All-map,
}
use mathlib.Core.List.{Memᴰ}
use mathlib.Core.List.Memᴰ
use mathlib.Core.Logic.{ite}
use mathlib.Core.Option.{some-injective}
use native.Mathlib.Decide.{ℕ_discrete}
use blockchain_voting.SyncQueue.Threads.{update}
use blockchain_voting.Codec.{TransactionMsg}
use blockchain_voting.Server
use blockchain_voting.Booth.Election.{Voter, cast, sent_to, mail}
use blockchain_voting.Miner.{Miner, Environment, first_half, second_half}
use blockchain_voting.Miner.System.{
  Node, node, at_top, at_pop, shared, with_shared, Step, continues, goes_on, finishes,
  receives_transaction,
}
use blockchain_voting.Miner.Loop.{round, run}
use blockchain_voting.Miner.Polling.{Arrival, receive, poll}
use blockchain_voting.Miner.Election.{election, run_on}
use blockchain_voting.Network.{Network, Carried, votes, runs, NetReach, then_steps}

update_same {ℓ} : {B : Type ℓ} (f : ℕ → B) (i : ℕ) (b : B) → update f i b i ≡ b
update_same f i b = elim (ℕ_discrete i i) as (λ d. ite d b (f i) ≡ b) [
  | yes e ↦ refl
  | no other ↦ absurd (other refl)
]

-- What the booths of these voters send.
abbrev pub sent_by : Bytes → List Voter → List TransactionMsg
sent_by address [] = []
sent_by address ((env, b) ∷ voters) = map (λ p. p.1) (cast address b) ++ sent_by address voters

sent_to-Mem :
    (address : Bytes) (messages : List (Bytes × TransactionMsg))
    → All (λ msg. Memᴰ msg (map (λ p. p.1) messages)) (sent_to address messages)
sent_to-Mem address [] = tt
sent_to-Mem address ((addr, msg) ∷ messages) =
    let later =
      All-map (λ x. Memᴰ x (map (λ p. p.1) messages)) (λ x. Memᴰ x (msg ∷ map (λ p. p.1) messages))
        (sent_to address messages) (λ x m. Memᴰ.tail m) (sent_to-Mem address messages) in
    elim (Bool-cases (bytes_eq addr address)) [
      | inl here ↦ rw here (Memᴰ.head refl, later)
      | inr elsewhere ↦ rw elsewhere later
    ]

-- The messages of these arrivals have been sent.
abbrev pub AllSent : List TransactionMsg → List Arrival → Type 0
AllSent msgs = All (λ a. Memᴰ a.1 msgs)

All-arrivals :
    (env : Environment) (msgs : List TransactionMsg) (got : List TransactionMsg)
    → All (λ msg. Memᴰ msg msgs) got
    → AllSent msgs (map (λ msg. (env, msg)) got)
All-arrivals env msgs [] a = tt
All-arrivals env msgs (msg ∷ got) a = (a.0, All-arrivals env msgs got a.1)

pub AllSent-append :
    (before msgs : List TransactionMsg) (arrivals : List Arrival)
    → AllSent msgs arrivals
    → AllSent (before ++ msgs) arrivals
AllSent-append before msgs arrivals a =
    All-map (λ x. Memᴰ x.1 msgs) (λ x. Memᴰ x.1 (before ++ msgs)) arrivals
      (λ x m. Memᴰ.append_right before m) a

pub mail-AllSent :
    (address : Bytes) (voters : List Voter) → AllSent (sent_by address voters) (mail address voters)
mail-AllSent address [] = tt
mail-AllSent address ((env, b) ∷ voters) =
    let mine = map (λ p. p.1) (cast address b) in
    let all = sent_by address ((env, b) ∷ voters) in
    let got = sent_to address (cast address b) in
    All-append (λ a. Memᴰ a.1 all) (map (λ msg. (env, msg)) got) (mail address voters)
      (All-arrivals env all got (
        All-map (λ x. Memᴰ x mine) (λ x. Memᴰ x all) got (λ x m. Memᴰ.append_left _ m)
          (sent_to-Mem address (cast address b))))
      (AllSent-append mine (sent_by address voters) (mail address voters)
        (mail-AllSent address voters))

module _ (sha1 : Bytes → Bytes) (o : Network) (i : ℕ) where
  -- The network comes to a state with node `i` like this, and these votes cast.
  abbrev pub At : List TransactionMsg → Node → Type 0
  At msgs t = (k : Network) × NetReach sha1 o k × (k.nodes i ≡ t) × (k.cast ≡ msgs)

  moves :
      (k : Network) (msgs : List TransactionMsg) (t : Node) (st : Step sha1 (k.nodes i) t)
      → NetReach sha1 o k
      → k.cast ≡ msgs
      → Carried k st
      → At msgs t
  moves k msgs t st r same c = (
    record k { nodes = update k.nodes i t },
    then_steps r (runs i t st c),
    update_same k.nodes i t,
    same,
  )

  receive-At :
      (msgs : List TransactionMsg) (m : Miner) (msg : TransactionMsg)
      → At msgs (node at_top m)
      → Memᴰ msg msgs
      → At msgs (node at_top (receive msg m))
  receive-At msgs m msg (k, r, stands, same) mem =
      let got = λ (s : Node).
        node s.pc (with_shared s.miner (Server.broadcast_transaction (shared s.miner) msg).0) in
      moves k msgs (node at_top (receive msg m)) (receives_transaction msg (ap got (sym stands))) r
        same (inl (subst (Memᴰ msg) (sym same) mem))

  second_half-At :
      (msgs : List TransactionMsg) (m m' : Miner)
      → At msgs (node at_pop m)
      → second_half sha1 m ≡ ok (some m')
      → At msgs (node at_top m')
  second_half-At msgs m m' (k, r, stands, same) e =
      moves k msgs (node at_top m')
        (finishes m' (ap (λ s. s.pc) stands) (ap (λ s. second_half sha1 s.miner) stands ∙ e) refl) r
        same tt

  first_half-At :
      (msgs : List TransactionMsg) (env : Environment) (m x m' : Miner) (docontinue : Bool)
      → At msgs (node at_top m)
      → first_half env m ≡ ok (x, docontinue)
      → (if docontinue then ok (some x) else second_half sha1 x) ≡ ok (some m')
      → At msgs (node at_top m')
  first_half-At msgs env m x m' true (k, r, stands, same) e f =
      subst (λ y. At msgs (node at_top y)) (some-injective _ _ (ok-injective f))
        (moves k msgs (node at_top x)
          (continues env x (ap (λ s. s.pc) stands) (ap (λ s. first_half env s.miner) stands ∙ e)
            refl)
          r same tt)
  first_half-At msgs env m x m' false (k, r, stands, same) e f =
      second_half-At msgs x m'
        (moves k msgs (node at_pop x)
          (goes_on env x (ap (λ s. s.pc) stands) (ap (λ s. first_half env s.miner) stands ∙ e) refl)
          r same tt)
        f

  round-At :
      (msgs : List TransactionMsg) (env : Environment) (m m' : Miner)
      → At msgs (node at_top m)
      → round sha1 env m ≡ ok (some m')
      → At msgs (node at_top m')
  unfolding round
  round-At msgs env m m' at h =
      let (p, e, f) = >>=-eq-ok (first_half env m) _ h in first_half-At msgs env m p.0 m' p.1 at e f

  run-At :
      (msgs : List TransactionMsg) (envs : List Environment) (m m' : Miner)
      → At msgs (node at_top m)
      → run sha1 envs m ≡ ok (some m')
      → At msgs (node at_top m')
  unfolding run
  run-At msgs [] m m' at h =
      subst (λ y. At msgs (node at_top y)) (some-injective _ _ (ok-injective h)) at
  run-At msgs (env ∷ envs) m m' at h =
      let (p, e, f) = >>=-eq-ok (round sha1 env m) _ h in
      elim (Option-cases p) [
        | inl none_left ↦ let g = rw none_left at f in cc
        | inr (x, left) ↦
            run-At msgs envs x m' (round-At msgs env m x at (e ∙ ap ok left)) (rw left at f)
      ]

  poll-At :
      (msgs : List TransactionMsg) (arrivals : List Arrival) (m m' : Miner)
      → At msgs (node at_top m)
      → AllSent msgs arrivals
      → poll sha1 arrivals m ≡ ok (some m')
      → At msgs (node at_top m')
  poll-At msgs [] m m' at a h =
      subst (λ y. At msgs (node at_top y)) (some-injective _ _ (ok-injective h)) at
  poll-At msgs (x ∷ rest) m m' at a h =
      let (p, e, f) = >>=-eq-ok (round sha1 x.0 (receive x.1 m)) _ h in
      elim (Option-cases p) [
        | inl none_left ↦ let g = rw none_left at f in cc
        | inr (m1, left) ↦
            poll-At msgs rest m1 m'
              (round-At msgs x.0 (receive x.1 m) m1 (receive-At msgs m x.1 at a.0) (e ∙ ap ok left))
              a.1 (rw left at f)
      ]

  pub election-At :
      (msgs : List TransactionMsg) (arrivals : List Arrival) (envs : List Environment)
      (m m' : Miner)
      → At msgs (node at_top m)
      → AllSent msgs arrivals
      → election sha1 arrivals envs m ≡ ok (some m')
      → At msgs (node at_top m')
  election-At msgs arrivals envs m m' at a h =
      let (p, e, f) = >>=-eq-ok (poll sha1 arrivals m) (run_on sha1 envs) h in
      elim (Option-cases p) [
        | inl none_left ↦ let g = rw none_left at f in cc
        | inr (x, left) ↦
            run-At msgs envs x m' (poll-At msgs arrivals m x at a (e ∙ ap ok left)) (rw left at f)
      ]

  pub votes-At :
      (address : Bytes) (voters : List Voter) (msgs : List TransactionMsg) (t : Node)
      → At msgs t
      → At (msgs ++ sent_by address voters) t
  votes-At address [] msgs t at = subst (λ x. At x t) (sym (append-nil msgs)) at
  votes-At address ((env, b) ∷ voters) msgs t (k, r, stands, same) =
      let mine = map (λ p. p.1) (cast address b) in
      let argv = b.own_address ∷ address ∷ b.publickeyfile ∷ b.vote ∷ [] in
      let after : Network = record k { cast = k.cast ++ mine } in
      subst (λ x. At x t) (append_assoc msgs mine (sent_by address voters))
        (votes-At address voters (msgs ++ mine) t (
          after,
          then_steps r (votes b.get_addr b.read_file b.now argv),
          stands,
          ap (λ x. x ++ mine) same,
        ))
