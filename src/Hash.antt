-- ===== src/Hash.antt =====
-- peer.cpp, `leading_zeros`: the proof-of-work measure of a hash.
pub mod Nibbles
mod Examples
use blockchain_voting.Base.{ℕ, ◌+◌, ◌/◌, Bool, [], ◌∷◌, leb, ◌==◌, if◌then◌else◌, Bytes}

-- The loop of `leading_zeros` over the `n` bytes of `buf`; `buf[i] >> 4` is `/ 16`.
unfoldable pub zeros_from : ℕ → Bytes → ℕ
zeros_from lz [] = lz
zeros_from lz (b ∷ bs) =
    let rest = zeros_from (lz + 2) bs in
    if b == 0 then rest else (if b / 16 == 0 then lz + 1 else lz)

unfoldable pub leading_zeros : Bytes → ℕ
unfolding zeros_from
leading_zeros bs = zeros_from 0 bs

-- NUM_LEADING_ZEROS
abbrev pub num_leading_zeros : ℕ
num_leading_zeros = 3

-- The test of the mining loop.
unfoldable pub meets_target : Bytes → Bool
unfolding leading_zeros
meets_target hash = leb num_leading_zeros (leading_zeros hash)
