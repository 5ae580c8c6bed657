-- ===== src/Config.antt =====
-- config/validators.go: the validators of the options. A value is of one of the kinds that the
-- options use, a failed type assertion panics (`none`), and an error is told by its kind.
pub mod Accepted
pub mod Options
pub mod Outcomes
pub mod Read
pub mod Shadowed
use Prim.Native.Char.{code}
use gobalance.Common.{
  ltb, if◌then◌else◌, ◌>>=◌, Int64, int64_size, string_key, nat_key, ◌==◌, ℕ, ◌+◌, ◌%◌, String,
  Bool, true, false, ◌||◌, Option, none, some, List, [], ◌∷◌,
}
use gobalance.Storage.{err}

pub data Kind : Type 0 where
  int64_kind string_kind bool_kind slice_kind : Kind

mutual
  pub data Value : Type 0 where
    int_value : Int64 → Value
    string_value : String → Value
    bool_value : Bool → Value
    slice_value : Values → Value

  pub data Values : Type 0 where
    no_values : Values
    value_and : Value → Values → Values

pub data ValidationError : Type 0 where
  wrong_kind too_great too_small too_long too_short not_a_choice : ValidationError

-- `none` in place of an error is nil.
abbrev pub ValidatorFunc : Type 0
ValidatorFunc = Value → Option (Option ValidationError)

unfoldable pub kind_of : Value → Kind
kind_of (int_value n) = int64_kind
kind_of (string_value s) = string_kind
kind_of (bool_value b) = bool_kind
kind_of (slice_value vs) = slice_kind

abbrev pub same_kind : Kind → Kind → Bool
same_kind int64_kind int64_kind = true
same_kind string_kind string_kind = true
same_kind bool_kind bool_kind = true
same_kind slice_kind slice_kind = true
same_kind _ _ = false

unfoldable pub kind_validator : Kind → ValidatorFunc
unfolding kind_of
kind_validator kind v = if same_kind (kind_of v) kind then some none else some (some wrong_kind)

unfoldable pub chain_validator : List ValidatorFunc → ValidatorFunc
chain_validator [] v = some none
chain_validator (f ∷ fs) v =
    let rest = chain_validator fs v in
    f v >>= λ e. elim e [ none ↦ rest | some problem ↦ some (some problem) ]

-- the loop of `SliceElemValidator`
unfoldable pub each_valid : ValidatorFunc → Values → Option (Option ValidationError)
each_valid f no_values = some none
each_valid f (value_and v vs) =
    let rest = each_valid f vs in
    f v >>= λ e. elim e [ none ↦ rest | some problem ↦ some (some problem) ]

unfoldable pub slice_elem_validator : ValidatorFunc → ValidatorFunc
unfolding chain_validator kind_validator each_valid
slice_elem_validator f =
    chain_validator (
      kind_validator slice_kind
      ∷ (λ v. elim v [ slice_value vs ↦ each_valid f vs | _ ↦ none ])
      ∷ [])

-- a < b as int64
abbrev pub lt64 : Int64 → Int64 → Bool
lt64 a b = ltb ((a + 9223372036854775808) % int64_size) ((b + 9223372036854775808) % int64_size)

unfoldable pub integer_validator : ValidatorFunc
unfolding kind_validator
integer_validator = kind_validator int64_kind

-- the closure of `IntegerMaxValidator`; `val.(int64)` panics on another kind
unfoldable pub at_most : Int64 → ValidatorFunc
at_most max (int_value n) = if lt64 max n then some (some too_great) else some none
at_most max _ = none

unfoldable pub at_least : Int64 → ValidatorFunc
at_least min (int_value n) = if lt64 n min then some (some too_small) else some none
at_least min _ = none

unfoldable pub integer_max_validator : Int64 → ValidatorFunc
unfolding chain_validator integer_validator at_most
integer_max_validator max = chain_validator (integer_validator ∷ at_most max ∷ [])

unfoldable pub integer_min_validator : Int64 → ValidatorFunc
unfolding chain_validator integer_validator at_least
integer_min_validator min = chain_validator (integer_validator ∷ at_least min ∷ [])

unfoldable pub integer_min_max_validator : Int64 → Int64 → ValidatorFunc
unfolding chain_validator integer_validator integer_min_validator integer_max_validator
integer_min_max_validator min max =
    chain_validator (integer_validator ∷ integer_min_validator min ∷ integer_max_validator max ∷ [])

unfoldable pub uint16_validator : ValidatorFunc
unfolding integer_min_max_validator
uint16_validator = integer_min_max_validator 0 65535

unfoldable pub string_validator : ValidatorFunc
unfolding kind_validator
string_validator = kind_validator string_kind

-- `len` of a string, the bytes of its UTF-8 form
unfoldable pub len_bytes : String → ℕ
len_bytes String.[] = 0
len_bytes (String.◌∷◌ c s) =
    let rest = len_bytes s in
    if ltb (code c) 128
    then 1 + rest
    else if ltb (code c) 2048
    then 2 + rest
    else if ltb (code c) 65536
    then 3 + rest
    else 4 + rest

-- the closure of `StringMaxLengthValidator`
unfoldable pub at_most_long : Int64 → ValidatorFunc
unfolding len_bytes
at_most_long max_length (string_value s) =
    if lt64 max_length (len_bytes s) then some (some too_long) else some none
at_most_long max_length _ = none

unfoldable pub at_least_long : Int64 → ValidatorFunc
unfolding len_bytes
at_least_long min_length (string_value s) =
    if lt64 (len_bytes s) min_length then some (some too_short) else some none
at_least_long min_length _ = none

unfoldable pub string_max_length_validator : Int64 → ValidatorFunc
unfolding chain_validator string_validator at_most_long
string_max_length_validator max_length =
    chain_validator (string_validator ∷ at_most_long max_length ∷ [])

unfoldable pub string_min_length_validator : Int64 → ValidatorFunc
unfolding chain_validator string_validator at_least_long
string_min_length_validator min_length =
    chain_validator (string_validator ∷ at_least_long min_length ∷ [])

unfoldable pub bool_validator : ValidatorFunc
unfolding kind_validator
bool_validator = kind_validator bool_kind

abbrev pub chosen : String → List String → Bool
chosen s [] = false
chosen s (c ∷ cs) = c == s || chosen s cs

-- `validMap`, as the list of the choices
unfoldable pub one_of : List String → ValidatorFunc
one_of choices (string_value s) = if chosen s choices then some none else some (some not_a_choice)
one_of choices _ = none

unfoldable pub string_choice_validator : List String → ValidatorFunc
unfolding chain_validator string_validator one_of
string_choice_validator choices = chain_validator (string_validator ∷ one_of choices ∷ [])
