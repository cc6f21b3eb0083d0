-- ===== src/Memory/Examples.antt =====
-- Runs of `same_hash`.
use blockchain_voting.Base.{◌≡◌, refl, false, [], ◌∷◌, ok, err, out_of_bounds}
use blockchain_voting.Memory.{buf, same_hash, same_prefix}

-- A difference is found before the shorter buffer ends.
early_difference : same_hash (buf (1 ∷ 2 ∷ [])) (buf (1 ∷ 3 ∷ [])) ≡ ok false
unfolding same_hash same_prefix
early_difference = refl

overrun : same_hash (buf (1 ∷ 2 ∷ [])) (buf (1 ∷ 2 ∷ [])) ≡ err out_of_bounds
unfolding same_hash same_prefix
overrun = refl
