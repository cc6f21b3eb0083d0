-- ===== src/Hash/Nibbles.antt =====
-- `leading_zeros` of peer.cpp against the hex digits of the buffer.
use blockchain_voting.Base.{
  ℕ, zero, suc, ◌+◌, ◌*◌, ◌/◌, ◌%◌, ◌≤◌, ◌<◌, ◌≡◌, refl, ◌↔◌, true, false, List, [], ◌∷◌, arith,
  ◌==◌, if◌then◌else◌, length, Bytes,
}
use blockchain_voting.Hash.{zeros_from, leading_zeros, meets_target}

-- The hex digits of a buffer, two a byte, the high one first.
abbrev pub hex_digits : Bytes → List ℕ
hex_digits [] = []
hex_digits (b ∷ bs) = b / 16 ∷ b % 16 ∷ hex_digits bs

-- How many zeros a list of digits begins with.
unfoldable pub zero_prefix : List ℕ → ℕ
zero_prefix [] = 0
zero_prefix (zero ∷ ds) = suc (zero_prefix ds)
zero_prefix (suc d ∷ ds) = 0

zero_prefix-cons :
    (d : ℕ) (ds : List ℕ) → zero_prefix (d ∷ ds) ≡ (if d == 0 then suc (zero_prefix ds) else 0)
unfolding zero_prefix
zero_prefix-cons zero ds = refl
zero_prefix-cons (suc d) ds = ground arith

zeros_from-eq : (lz : ℕ) (bs : Bytes) → zeros_from lz bs ≡ lz + zero_prefix (hex_digits bs)
unfolding zeros_from
zeros_from-eq lz [] = unfold zero_prefix in omega arith
zeros_from-eq lz (b ∷ bs) = ground (
  arith,
  zeros_from-eq (lz + 2) bs,
  zero_prefix-cons (b / 16) (b % 16 ∷ hex_digits bs),
  zero_prefix-cons (b % 16) (hex_digits bs),
)

-- `leading_zeros` is the number of zeros at the start of the buffer's hexadecimal representation.
pub leading_zeros-eq : (bs : Bytes) → leading_zeros bs ≡ zero_prefix (hex_digits bs)
unfolding leading_zeros
leading_zeros-eq bs = ground (arith, zeros_from-eq 0 bs)

zero_prefix-le : (ds : List ℕ) → zero_prefix ds ≤ length ds
unfolding zero_prefix
zero_prefix-le [] = omega arith
zero_prefix-le (zero ∷ ds) = omega (arith, zero_prefix-le ds)
zero_prefix-le (suc d ∷ ds) = omega arith

length-hex_digits : (bs : Bytes) → length (hex_digits bs) ≡ 2 * length bs
length-hex_digits [] = refl
length-hex_digits (b ∷ bs) = omega (arith, length-hex_digits bs)

-- It is at most twice the number of bytes.
pub leading_zeros_bound : (bs : Bytes) → leading_zeros bs ≤ 2 * length bs
leading_zeros_bound bs =
    rw leading_zeros-eq (omega (arith, zero_prefix-le (hex_digits bs), length-hex_digits bs))

-- A hash meets the target exactly when its first byte is 0 and its second byte is below 16.
pub meets_target_iff :
    (b c : ℕ) (bs : Bytes) → (meets_target (b ∷ c ∷ bs) ≡ true) ↔ ((b ≡ 0) × (c < 16))
unfolding meets_target leading_zeros zeros_from
meets_target_iff b c bs =
    (λ h. ground (arith, zeros_from-eq 4 bs), λ (p, q). ground (arith, zeros_from-eq 4 bs))

-- A buffer of fewer than two bytes never meets the target.
pub meets_target_short : (bs : Bytes) → length bs < 2 → meets_target bs ≡ false
unfolding meets_target
meets_target_short bs h = ground (arith, leading_zeros_bound bs)
