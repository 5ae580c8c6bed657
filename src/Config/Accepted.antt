-- ===== src/Config/Accepted.antt =====
-- config/validators.go: which values the validators of the options accept.
use gobalance.Common.{
  if◌then◌else◌, Bool-cases, of-some, Int64, ◌≡◌, refl, sym, ap, ◌∙◌, ◌↔◌, inl, inr, false, Option,
  none, some, arith,
}
use gobalance.Config.{
  chain_validator, bool_value, int_value, too_small, wrong_kind, at_least, ValidationError, kind_of,
  string_value, Value, too_great, integer_min_validator, lt64, integer_max_validator,
  integer_validator, kind_validator, integer_min_max_validator, at_most, slice_value,
}

-- What `IntegerMinMaxValidator` answers.
abbrev verdict : Int64 → Int64 → Value → Option ValidationError
verdict min max (int_value n) =
    if lt64 n min then some too_small else if lt64 max n then some too_great else none
verdict min max _ = some wrong_kind

integer_min_max_validator-verdict :
    (min max : Int64) (v : Value) → integer_min_max_validator min max v ≡ some (verdict min max v)
unfolding integer_min_max_validator integer_min_validator integer_max_validator integer_validator
    chain_validator kind_validator kind_of at_least at_most
integer_min_max_validator-verdict min max (int_value n) = elim (Bool-cases (lt64 n min)) [
  | inl small ↦ rw small
  | inr enough ↦ elim (Bool-cases (lt64 max n)) [
    | inl great ↦ rw (enough, great)
    | inr fits ↦ rw (enough, fits)
  ]
]
integer_min_max_validator-verdict min max (string_value s) = refl
integer_min_max_validator-verdict min max (bool_value b) = refl
integer_min_max_validator-verdict min max (slice_value vs) = refl

accepted :
    (min max : Int64) (v : Value)
    → (verdict min max v ≡ none)
      ↔ ((n : Int64) × (v ≡ int_value n) × (lt64 n min ≡ false) × (lt64 max n ≡ false))
accepted min max (int_value n) =
    (λ h. (n, refl, ground (arith, h), ground (arith, h)), λ (m, same, p, q). again m same p q)
  where
    number : Value → Int64
    number (int_value k) = k
    number _ = 0

    again :
        (m : Int64)
        → int_value n ≡ int_value m
        → lt64 m min ≡ false
        → lt64 max m ≡ false
        → verdict min max (int_value n) ≡ none
    again m same p q = let e : n ≡ m = ap number same in rw (e, p, q)
accepted min max (string_value s) = (λ h. cc, λ (m, same, p, q). cc)
accepted min max (bool_value b) = (λ h. cc, λ (m, same, p, q). cc)
accepted min max (slice_value vs) = (λ h. cc, λ (m, same, p, q). cc)

-- `IntegerMinMaxValidator` never panics, and accepts the int64 values that are not below the min
-- and not above the max, and no others.
pub integer_min_max_validator-accepts :
    (min max : Int64) (v : Value)
    → ((problem : Option ValidationError) × (integer_min_max_validator min max v ≡ some problem))
      × ((integer_min_max_validator min max v ≡ some none)
          ↔ ((n : Int64) × (v ≡ int_value n) × (lt64 n min ≡ false) × (lt64 max n ≡ false)))
integer_min_max_validator-accepts min max v =
    let e = integer_min_max_validator-verdict min max v in
    (
      (verdict min max v, e),
      (
        λ h. (accepted min max v).0 (of-some (sym e ∙ h)),
        λ p. e ∙ ap some ((accepted min max v).1 p),
      ),
    )
