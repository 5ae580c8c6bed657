-- ===== src/Examples/Texts.antt =====
-- Texts for the addresses of peers: numbers in strokes, and two parts with a colon between them.
use Prim.Native.Nat.{ℕ, zero, suc}
use Prim.Native.Char.{Char, code}
use Prim.Native.String.{String, [], ◌∷◌}
use mathlib.Core.Path.{◌≡◌, refl, ap}
use mathlib.Core.Option.{Option, none, some}
use gobalance.Common.{eqb, if◌then◌else◌}

abbrev stroke : Char
stroke = "I"

abbrev colon : Char
colon = ":"

unfoldable pub strokes : ℕ → String
strokes zero = []
strokes (suc k) = stroke ∷ strokes k

unfoldable pub count_strokes : String → ℕ
count_strokes [] = 0
count_strokes (c ∷ s) = suc (count_strokes s)

pub count_strokes-strokes : (k : ℕ) → count_strokes (strokes k) ≡ k
unfolding strokes count_strokes
count_strokes-strokes zero = refl
count_strokes-strokes (suc k) = ap suc (count_strokes-strokes k)

unfoldable pub with_colon : String → String → String
with_colon [] t = colon ∷ t
with_colon (c ∷ s) t = c ∷ with_colon s t

abbrev pub put_before : Char → Option (String × String) → Option (String × String)
put_before c none = none
put_before c (some (s, t)) = some (c ∷ s, t)

unfoldable pub split_colon : String → Option (String × String)
split_colon [] = none
split_colon (c ∷ s) =
    let rest = split_colon s in if eqb (code c) 58 then some ([], s) else put_before c rest

pub split_colon-with_colon :
    (k : ℕ) (t : String) → split_colon (with_colon (strokes k) t) ≡ some (strokes k, t)
unfolding strokes split_colon with_colon
split_colon-with_colon zero t = refl
split_colon-with_colon (suc k) t = ap (put_before stroke) (split_colon-with_colon k t)
