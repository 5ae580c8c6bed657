-- ===== src/Config/Shadowed.antt =====
-- config/options.go: no option shadows another.
use gobalance.Common.{
  Bool-cases, All, string_key, nat_key, ◌==◌, String, ◌≡◌, refl, ap, subst, inl, inr, Bool, true,
  false, ◌&&◌, ◌||◌, not, List, [], ◌∷◌, map, arith,
}
use text.Mathlib.TextEquality.{eq_iff}
use gobalance.Config.Options.{options, conf_option, shadows, ConfOption, is_supported}
use gobalance.OrderedMap.{member}

pub names_of : List ConfOption → List String
names_of ops = map (λ op. op.name) ops

pub supported-member :
    (k : String) (ops : List ConfOption) → is_supported k ops ≡ member k (names_of ops)
unfolding is_supported names_of
supported-member k [] = refl
supported-member k (op ∷ ops) = ap (λ b. op.name == k || b) (supported-member k ops)

-- none of the names shadows the key
abbrev pub shadowed_by_none : String → List ConfOption → Bool
shadowed_by_none k [] = true
shadowed_by_none k (op ∷ ops) = not (shadows op.name k) && shadowed_by_none k ops

abbrev pub AllClear : List ConfOption → List ConfOption → Type 0
AllClear all_ops ops = All (λ op. shadowed_by_none op.name all_ops ≡ true) ops

pub supported-shadows :
    (j k : String) (ops : List ConfOption)
    → is_supported j ops ≡ true
    → shadowed_by_none k ops ≡ true
    → shadows j k ≡ false
unfolding is_supported
supported-shadows j k [] there clear = absurd (ground (arith, there))
supported-shadows j k (op ∷ ops) there clear = elim (Bool-cases (op.name == j)) [
  | inl same ↦ subst (λ i. shadows i k ≡ false) ((eq_iff op.name j).0 same) (ground (arith, clear))
  | inr apart ↦ supported-shadows j k ops (ground (arith, apart, there)) (ground (arith, clear))
]

all_clear : List ConfOption → List ConfOption → Bool
all_clear all_ops [] = true
all_clear all_ops (op ∷ ops) = shadowed_by_none op.name all_ops && all_clear all_ops ops

AllClear-of : (all_ops ops : List ConfOption) → all_clear all_ops ops ≡ true → AllClear all_ops ops
unfolding all_clear
AllClear-of all_ops [] h = tt
AllClear-of all_ops (op ∷ ops) h = (ground (arith, h), AllClear-of all_ops ops (ground (arith, h)))

options_clear : all_clear options options ≡ true
unfolding all_clear options conf_option shadows
options_clear = refl

pub options-AllClear : AllClear options options
options-AllClear = AllClear-of options options options_clear
