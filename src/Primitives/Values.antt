-- ===== src/Primitives/Values.antt =====
-- primitives/primitives.go: an amount of satoshi as a text in bitcoin. A text is the list of its
-- bytes. `format_int` is FormatInt of Go's strconv, in base 10.
pub mod Printed
use Prim.Native.Nat.{◌/◌, ◌%◌, ◌^◌}
use gobalance.Common.{
  ltb, leb, eqb, if◌then◌else◌, length, Int64, neg64, is_negative, ℕ, zero, suc, ◌+◌, ◌-◌, List, [],
  ◌∷◌, ◌++◌,
}

abbrev pub decimal_point : ℕ
decimal_point = 8

unfoldable pub abs : Int64 → Int64
abs n = if is_negative n then neg64 n else n

-- the digits of a number, at most as many as the first argument
unfoldable pub digits : ℕ → ℕ → List ℕ
digits zero n = []
digits (suc most) n =
    let rest = digits most (n / 10) in
    if ltb n 10 then (b'0' + n) ∷ [] else rest ++ ((b'0' + n % 10) ∷ [])

-- An int64 has at most 19 digits, and its pattern at most 20.
unfoldable pub format_int : Int64 → List ℕ
unfolding digits
format_int n = if is_negative n then b'-' ∷ digits 20 (neg64 n) else digits 20 n

unfoldable pub zeroes : ℕ → List ℕ
zeroes zero = []
zeroes (suc n) = b'0' ∷ zeroes n

-- the loop over the runes of a text of the given length, from the given index on
unfoldable pub with_point : ℕ → ℕ → List ℕ → List ℕ
with_point size index [] = []
with_point size index (c ∷ text) =
    let rest = with_point size (index + 1) text in
    if eqb (size - index) decimal_point then b'.' ∷ c ∷ rest else c ∷ rest

unfoldable pub bitcoin_value_to_string : Int64 → List ℕ
unfolding abs format_int zeroes with_point
bitcoin_value_to_string value =
    let str = format_int (abs value) in
    let sign = if is_negative value then b'-' ∷ [] else [] in
    if leb (length str) decimal_point
    then sign ++ (b'0' ∷ b'.' ∷ (zeroes (decimal_point - length str) ++ str))
    else sign ++ with_point (length str) 0 str
