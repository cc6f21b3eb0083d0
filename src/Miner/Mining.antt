-- ===== src/Miner/Mining.antt =====
-- The mining loop of `processing_thread` (peer.cpp): which `magic` it finds, and what it leaves.
use blockchain_voting.Base.{
  ℕ, zero, suc, ◌+◌, ◌%◌, ◌^◌, ◌≤◌, ◌<◌, ◌≡◌, refl, sym, ap, ◌∙◌, ◌≢◌, ◌⊎◌, inl, inr, Bool, true,
  false, some, ◌∷◌, arith, if◌then◌else◌, Bool-cases, length, take_of_length-le, Result, ok, Bytes,
}
use blockchain_voting.Memory.{buf, read_bytes, public_key_size, first_char}
use blockchain_voting.Memory.Laws.{read_prefix-eq-take}
use blockchain_voting.Hash.{meets_target}
use blockchain_voting.Block.{Block, Transaction, Slots}
use blockchain_voting.Finhash.{IsSha1, calculate_finhash, hashed_bytes}
use blockchain_voting.Finhash.Laws.{root_of, calculate_finhash-eq}
use blockchain_voting.Miner.{Miner, finish_block, try_magic}

-- The working block with its hash for the given `magic`.
abbrev pub hashed : (Bytes → Bytes) → Transaction → Block → ℕ → Block
hashed sha1 t w magic = record w {
  magic = magic;
  merkle_root = buf (root_of sha1 t);
  finhash = buf (sha1 (hashed_bytes (root_of sha1 t) magic));
}

-- Whether an attempt succeeds.
abbrev pub succeeds : (Bytes → Bytes) → Transaction → ℕ → Bool
succeeds sha1 t magic = meets_target (sha1 (hashed_bytes (root_of sha1 t) magic))

module _ (sha1 : Bytes → Bytes) (law : IsSha1 sha1) (t : Transaction)
    (long : public_key_size ≤ length t.sender_public_key) (b : ℕ)
    (starts : first_char (buf (root_of sha1 t)) ≡ ok b) (nonzero : b ≢ 0) where
  calculate_finhash-hashed :
      (w : Block) (slots : Slots)
      → w.transaction_array ≡ some t ∷ slots
      → calculate_finhash sha1 w ≡ ok (hashed sha1 t w w.magic)
  calculate_finhash-hashed w slots e =
      calculate_finhash-eq sha1 law w t slots e long ∙ rw starts (ground arith)

  read_finhash : (m : Bytes) → read_bytes (buf (sha1 m)) public_key_size ≡ ok (sha1 m)
  unfolding read_bytes
  read_finhash m =
      let len = law.length_digest m in
      read_prefix-eq-take public_key_size (sha1 m) (omega arith)
      ∙ ap ok (take_of_length-le public_key_size (sha1 m) (omega arith))

  try_magic-suc :
      (n : ℕ) (m : Miner) (slots : Slots)
      → m.working_block.transaction_array ≡ some t ∷ slots
      → try_magic sha1 (suc n) m ≡ (
          let w = hashed sha1 t m.working_block ((m.working_block.magic + 1) % 2 ^ 64) in
          if succeeds sha1 t ((m.working_block.magic + 1) % 2 ^ 64)
          then finish_block sha1 m w
          else try_magic sha1 n (record m { working_block = w }))
  unfolding try_magic
  try_magic-suc n m slots e =
      rw
        (
          calculate_finhash-hashed
              (record m.working_block { magic = (m.working_block.magic + 1) % 2 ^ 64 }) slots e,
          read_finhash,
        )
        (ground arith)

  -- The result of the loop does not depend on the working block that it replaces.
  finish_block-working :
      (m : Miner) (w x : Block)
      → finish_block sha1 (record m { working_block = x }) w ≡ finish_block sha1 m w
  unfolding finish_block
  finish_block-working m w x = ground arith

-- The `magic` of attempt `j`, counted from 0, of a loop that starts at `base`.
abbrev pub attempt : ℕ → ℕ → ℕ
attempt base j = (base + 1 + j) % 2 ^ 64

attempt_next : (base j : ℕ) → attempt (attempt base 0) j ≡ attempt base (suc j)
attempt_next base j = omega arith

-- The working block after `n` attempts that failed.
abbrev pub after_attempts : (Bytes → Bytes) → Transaction → ℕ → Block → Block
after_attempts sha1 t zero w = w
after_attempts sha1 t (suc n) w = hashed sha1 t w (attempt w.magic n)

-- The two ways in which `n` attempts end: attempt `k` is the first to succeed, and its block is
-- finished; or all fail, and only the working block has changed.
abbrev pub Outcome : (Bytes → Bytes) → Transaction → ℕ → Miner → Result Miner → Type 0
Outcome sha1 t n m r =
    ((k : ℕ) × (k < n)
      × ((j : ℕ) → j < k → succeeds sha1 t (attempt m.working_block.magic j) ≡ false)
      × (succeeds sha1 t (attempt m.working_block.magic k) ≡ true)
      × (r ≡ finish_block sha1 m (hashed sha1 t m.working_block (attempt m.working_block.magic k))))
    ⊎ (((j : ℕ) → j < n → succeeds sha1 t (attempt m.working_block.magic j) ≡ false)
        × (r ≡ ok (record m { working_block = after_attempts sha1 t n m.working_block })))

after_attempts-suc :
    (sha1 : Bytes → Bytes) (t : Transaction) (n : ℕ) (w : Block)
    → after_attempts sha1 t n (hashed sha1 t w (attempt w.magic 0))
      ≡ after_attempts sha1 t (suc n) w
after_attempts-suc sha1 t zero w = refl
after_attempts-suc sha1 t (suc n) w = ap (hashed sha1 t w) (attempt_next w.magic n)

module _ (sha1 : Bytes → Bytes) (t : Transaction) (base : ℕ) where
  miss-suc :
      (n : ℕ)
      → succeeds sha1 t (attempt base 0) ≡ false
      → ((j : ℕ) → j < n → succeeds sha1 t (attempt (attempt base 0) j) ≡ false)
      → (j : ℕ) → j < suc n
      → succeeds sha1 t (attempt base j) ≡ false
  miss-suc n miss all zero lt = miss
  miss-suc n miss all (suc j) lt =
      sym (ap (succeeds sha1 t) (attempt_next base j)) ∙ all j (omega arith)

Outcome-suc :
    (sha1 : Bytes → Bytes) (t : Transaction) (n : ℕ) (m : Miner) (r : Result Miner)
    → ((w x : Block) → finish_block sha1 (record m { working_block = x }) w ≡ finish_block sha1 m w)
    → succeeds sha1 t (attempt m.working_block.magic 0) ≡ false
    → Outcome sha1 t n
        (record m {
          working_block = hashed sha1 t m.working_block (attempt m.working_block.magic 0);
        })
        r
    → Outcome sha1 t (suc n) m r
Outcome-suc sha1 t n m r same miss (inl (k, lt, before, hit, e)) =
    let w = m.working_block in
    inl (
      suc k,
      omega arith,
      miss-suc sha1 t w.magic k miss before,
      sym (ap (succeeds sha1 t) (attempt_next w.magic k)) ∙ hit,
      e
          ∙ same _ _
          ∙ ap (λ magic. finish_block sha1 m (hashed sha1 t w magic)) (attempt_next w.magic k),
    )
Outcome-suc sha1 t n m r same miss (inr (all, e)) = inr (
  miss-suc sha1 t m.working_block.magic n miss all,
  e ∙ ap (λ w. ok (record m { working_block = w })) (after_attempts-suc sha1 t n m.working_block),
)

module _ (sha1 : Bytes → Bytes) (law : IsSha1 sha1) (t : Transaction)
    (long : public_key_size ≤ length t.sender_public_key) (b : ℕ)
    (starts : first_char (buf (root_of sha1 t)) ≡ ok b) (nonzero : b ≢ 0) where
  -- The mining loop goes through the values of `magic` in order, one after the other and wrapping
  -- at 2 ^ 64, and stops at the first whose hash meets the target; that block is finished. If none
  -- of the `n` meets it, `magic` has advanced by `n` and nothing but the working block has changed.
  -- This holds as long as slot 0 holds a key of 20 characters or more whose merkle root begins with
  -- no zero byte.
  pub try_magic-Outcome :
      (n : ℕ) (m : Miner) (slots : Slots)
      → m.working_block.transaction_array ≡ some t ∷ slots
      → Outcome sha1 t n m (try_magic sha1 n m)
  try_magic-Outcome zero m slots e = inr ((λ j lt. absurd (omega arith)), unfold try_magic in refl)
  try_magic-Outcome (suc n) m slots e =
      let base = m.working_block.magic in
      let first : (base + 1) % 2 ^ 64 ≡ attempt base 0 = omega arith in
      let step = rw first at (try_magic-suc sha1 law t long b starts nonzero n m slots e) in
      elim (Bool-cases (succeeds sha1 t (attempt base 0))) [
        | inl hit ↦ inl (0, omega arith, (λ j lt. absurd (omega arith)), hit, (rw hit at step))
        | inr miss ↦
            let m' = record m { working_block = hashed sha1 t m.working_block (attempt base 0) } in
            let missed : try_magic sha1 (suc n) m ≡ try_magic sha1 n m' = (rw miss at step) in
            rw missed (
              Outcome-suc sha1 t n m (try_magic sha1 n m')
                (λ w x. finish_block-working sha1 law t long b starts nonzero m w x) miss
                (try_magic-Outcome n m' slots e))
      ]
