-- ===== src/Examples/Values.antt =====
-- primitives/primitives.go: amounts as texts.
use gobalance.Common.{Int64, ℕ, ◌≡◌, refl, List, [], ◌∷◌}
use Prim.Native.Char.{code}
use Prim.Native.String.{String}
use gobalance.Primitives.Values.{
  bitcoin_value_to_string, format_int, abs, digits, with_point, zeroes,
}
use gobalance.Primitives.Values.Printed.{magnitude, Prints, sign_of, bitcoin_value_to_string-Prints}

unfoldable codes : String → List ℕ
codes String.[] = []
codes (String.◌∷◌ c s) = code c ∷ codes s

-- 1.60392473 bitcoin, taken away
abbrev taken : Int64
taken = 18446744073549159143

bitcoin_value_to_string-Prints_example :
    Prints (magnitude taken) (sign_of taken) (bitcoin_value_to_string taken)
bitcoin_value_to_string-Prints_example = bitcoin_value_to_string-Prints taken refl refl

taken_printed : bitcoin_value_to_string taken ≡ codes "-1.60392473"
unfolding bitcoin_value_to_string abs format_int digits zeroes with_point codes
taken_printed = refl

one_printed : bitcoin_value_to_string 1 ≡ codes "0.00000001"
unfolding bitcoin_value_to_string abs format_int digits zeroes with_point codes
one_printed = refl

large_printed : bitcoin_value_to_string 10000000000000001 ≡ codes "100000000.00000001"
unfolding bitcoin_value_to_string abs format_int digits zeroes with_point codes
large_printed = refl

-- the least int64 has no absolute value, and gets two signs
least_printed : bitcoin_value_to_string 9223372036854775808 ≡ codes "--92233720368.54775808"
unfolding bitcoin_value_to_string abs format_int digits zeroes with_point codes
least_printed = refl
