-- ===== src/Utils.antt =====
-- utils/shuffle.go: `Shuffle`, with the random numbers as a parameter. `none` is a panic, of `swap`
-- out of range.
pub mod Shuffled
use gobalance.Common.{◌>>=◌, length, get_elem?, ℕ, zero, suc, ◌-◌, ◌<◌, Option, some, List, [], ◌∷◌}

-- `Intn` of math/rand: a number below the bound, and the source after it
pub record Random : Type 1 where
  pub Source : Type 0
  pub intn : ℕ → Source → ℕ × Source
  pub intn_lem : (n : ℕ) (s : Source) → 0 < n → (intn n s).0 < n

module _ {A : Type 0} where
  abbrev pub set_elem : ℕ → A → List A → List A
  set_elem i a [] = []
  set_elem zero a (x ∷ xs) = a ∷ xs
  set_elem (suc i) a (x ∷ xs) = x ∷ set_elem i a xs

  unfoldable pub swap : ℕ → ℕ → List A → Option (List A)
  swap i j xs =
      get_elem? xs i >>= λ a. get_elem? xs j >>= λ b. some (set_elem i b (set_elem j a xs))

  -- the loop from `i` down to 1
  unfoldable pub shuffle_from : (r : Random) → ℕ → r.Source → List A → Option (List A)
  unfolding swap
  shuffle_from r zero source xs = some xs
  shuffle_from r (suc i) source xs = swap (suc i) (r.intn (suc (suc i)) source).0 xs >>= λ ys.
      shuffle_from r i (r.intn (suc (suc i)) source).1 ys

  unfoldable pub shuffle : (r : Random) → r.Source → List A → Option (List A)
  unfolding shuffle_from
  shuffle r source xs = shuffle_from r (length xs - 1) source xs
