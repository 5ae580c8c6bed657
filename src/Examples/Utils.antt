-- ===== src/Examples/Utils.antt =====
-- A shuffle with a source that always gives 0.
use gobalance.Common.{nat_key, ℕ, ◌+◌, ◌≡◌, refl, some, List, [], ◌∷◌}
use gobalance.Utils.{shuffle_from, Random, swap, shuffle}

abbrev zeros : Random
zeros = record { Source = ℕ; intn = λ n s. (0, s + 1); intn_lem = λ n s h. h }

abbrev three : List ℕ
three = 7 ∷ 8 ∷ 9 ∷ []

rotated : shuffle zeros 0 three ≡ some (8 ∷ 9 ∷ 7 ∷ [])
unfolding shuffle shuffle_from swap
rotated = refl
