-- ===== src/Memory.antt =====
-- Reads through a `char*`, and `same_hash` of processor.cpp.
pub mod Laws
mod Examples
use blockchain_voting.Base.{
  ℕ, zero, suc, Bool, true, false, [], ◌∷◌, Bytes, Result, ok, err, null_pointer, out_of_bounds,
  dangling, ◌>>=◌, ◌==◌, if◌then◌else◌,
}

-- A `char*`: `NULL`, a pointer to what has been freed, or the bytes from the pointer to the end of
-- its allocation. A read behind the last byte is `out_of_bounds`.
pub data CharPtr : Type 0 where
  null : CharPtr
  freed : CharPtr
  buf : Bytes → CharPtr

abbrev pub deref : CharPtr → Result Bytes
deref null = err null_pointer
deref freed = err dangling
deref (buf bs) = ok bs

unfoldable pub read_prefix : ℕ → Bytes → Result Bytes
read_prefix zero bs = ok []
read_prefix (suc n) [] = err out_of_bounds
read_prefix (suc n) (b ∷ bs) = do rest ← read_prefix n bs; ok (b ∷ rest)

-- What `set_bytes(p, n)` and `memcpy(.., p, n)` read.
unfoldable pub read_bytes : CharPtr → ℕ → Result Bytes
read_bytes p n = do bs ← deref p; read_prefix n bs

-- `p[0]`
unfoldable pub first_char : CharPtr → Result ℕ
first_char null = err null_pointer
first_char freed = err dangling
first_char (buf []) = err out_of_bounds
first_char (buf (b ∷ bs)) = ok b

-- The bytes before the first NUL, as a `std::string` made from a `const char*` holds them.
unfoldable pub until_nul : Bytes → Result Bytes
until_nul [] = err out_of_bounds
until_nul (b ∷ bs) = let rest = until_nul bs in if b == 0 then ok [] else do s ← rest; ok (b ∷ s)

unfoldable pub c_string : CharPtr → Result Bytes
unfolding until_nul
c_string p = do bs ← deref p; until_nul bs

-- PUBLIC_KEY_SIZE
abbrev pub public_key_size : ℕ
public_key_size = 20

-- The loop of `same_hash`, with the rounds left.
unfoldable pub same_prefix : ℕ → Bytes → Bytes → Result Bool
same_prefix zero a b = ok true
same_prefix (suc n) [] b = err out_of_bounds
same_prefix (suc n) (x ∷ a) [] = err out_of_bounds
same_prefix (suc n) (x ∷ a) (y ∷ b) = if x == y then same_prefix n a b else ok false

unfoldable pub same_hash : CharPtr → CharPtr → Result Bool
unfolding same_prefix
same_hash p q = do a ← deref p; b ← deref q; same_prefix public_key_size a b
