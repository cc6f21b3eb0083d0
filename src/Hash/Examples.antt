-- ===== src/Hash/Examples.antt =====
-- Runs of `leading_zeros`, the one of `main` among them.
use blockchain_voting.Base.{ℕ, ◌<◌, ◌≡◌, refl, ◌↔◌, true, [], ◌∷◌}
use blockchain_voting.Hash.{leading_zeros, meets_target}
use blockchain_voting.Hash.Nibbles.{meets_target_iff}

meets_target_iff_example : (meets_target (0 ∷ 15 ∷ 9 ∷ []) ≡ true) ↔ (◌≡◌ {A = ℕ} 0 0 × (15 < 16))
meets_target_iff_example = meets_target_iff 0 15 (9 ∷ [])

-- `main` prints this one.
main_prints : leading_zeros (1 ∷ 0 ∷ 249 ∷ 248 ∷ 0 ∷ []) ≡ 1
unfolding leading_zeros
main_prints = refl
