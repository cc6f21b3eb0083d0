-- ===== src/Memory/Laws.antt =====
-- What `same_hash` of processor.cpp decides.
use blockchain_voting.Base.{
  ℕ, zero, suc, ◌≤◌, ◌<◌, ◌≡◌, refl, inl, inr, true, [], ◌∷◌, Bytes, ok, err, out_of_bounds, ◌==◌,
  arith, length, take, bytes_eq, Bool-cases,
}
use blockchain_voting.Memory.{buf, read_prefix, public_key_size, same_prefix, same_hash}

pub read_prefix-eq-take : (n : ℕ) (bs : Bytes) → n ≤ length bs → read_prefix n bs ≡ ok (take n bs)
unfolding read_prefix
read_prefix-eq-take zero bs h = refl
read_prefix-eq-take (suc n) [] h = absurd (omega arith)
read_prefix-eq-take (suc n) (b ∷ bs) h = rw (read_prefix-eq-take n bs (omega arith))

pub read_prefix_short : (n : ℕ) (bs : Bytes) → length bs < n → read_prefix n bs ≡ err out_of_bounds
unfolding read_prefix
read_prefix_short zero bs h = absurd (omega arith)
read_prefix_short (suc n) [] h = refl
read_prefix_short (suc n) (b ∷ bs) h = rw (read_prefix_short n bs (omega arith))

same_prefix-eq :
    (n : ℕ) (a b : Bytes)
    → n ≤ length a
    → n ≤ length b
    → same_prefix n a b ≡ ok (bytes_eq (take n a) (take n b))
unfolding same_prefix bytes_eq
same_prefix-eq zero a b h k = refl
same_prefix-eq (suc n) [] b h k = absurd (omega arith)
same_prefix-eq (suc n) (x ∷ a) [] h k = absurd (omega arith)
same_prefix-eq (suc n) (x ∷ a) (y ∷ b) h k = elim (Bool-cases (x == y)) [
  | inl e ↦ rw e (same_prefix-eq n a b (omega arith) (omega arith))
  | inr e ↦ rw e
]

-- `same_hash` on two buffers of 20 bytes or more compares their first 20 bytes, and nothing else.
pub same_hash-eq :
    (a b : Bytes)
    → public_key_size ≤ length a
    → public_key_size ≤ length b
    → same_hash (buf a) (buf b) ≡ ok (bytes_eq (take public_key_size a) (take public_key_size b))
unfolding same_hash
same_hash-eq a b h k = same_prefix-eq public_key_size a b h k

same_prefix-true :
    (n : ℕ) (a b : Bytes)
    → same_prefix n a b ≡ ok true
    → (n ≤ length a) × (n ≤ length b) × (take n a ≡ take n b)
unfolding same_prefix
same_prefix-true zero a b h = (omega arith, omega arith, refl)
same_prefix-true (suc n) [] b h = cc
same_prefix-true (suc n) (x ∷ a) [] h = cc
same_prefix-true (suc n) (x ∷ a) (y ∷ b) h = ground (arith, same_prefix-true n a b)

pub same_hash-true :
    (a b : Bytes)
    → same_hash (buf a) (buf b) ≡ ok true
    → (public_key_size ≤ length a)
      × (public_key_size ≤ length b)
      × (take public_key_size a ≡ take public_key_size b)
unfolding same_hash
same_hash-true a b h = same_prefix-true public_key_size a b h
