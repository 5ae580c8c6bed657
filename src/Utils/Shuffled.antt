-- ===== src/Utils/Shuffled.antt =====
-- utils/shuffle.go: the elements before and after a shuffle.
use gobalance.Common.{
  if◌then◌else◌, length, Key, string_key, nat_key, ◌==◌, ℕ, ◌+◌, ◌≡◌, List, [], ◌∷◌,
}
use gobalance.Utils.{Random}

module _ {A : Type 0} ⦃e : Key A⦄ (x : A) where
  abbrev pub count : List A → ℕ
  count [] = 0
  count (y ∷ ys) = (if y == x then 1 else 0) + count ys

module _ {A : Type 0} ⦃e : Key A⦄ (r : Random) where
  -- The same elements, each as many times.
  pub record Rearranges (xs ys : List A) : Type 0 where
    pub size : length ys ≡ length xs
    pub counts : (x : A) → count x ys ≡ count x xs
