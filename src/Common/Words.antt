-- ===== src/Common/Words.antt =====
-- Go's int64 as its 64-bit pattern: a number below 2^64, the negative numbers in the upper half.
-- Sums and differences wrap round.
use Prim.Native.Nat.{ℕ, ◌+◌, ◌-◌, ◌%◌}
use mathlib.Core.Path.{◌≡◌}
use mathlib.Core.Bool.{Bool}
use native.Mathlib.Omega.{arith}
use gobalance.Common.Tests.{leb}

abbrev pub Int64 : Type 0
Int64 = ℕ

abbrev pub int64_size : ℕ
int64_size = 18446744073709551616

-- a + b and a - b
abbrev pub add64 : Int64 → Int64 → Int64
add64 a b = (a + b) % int64_size

abbrev pub sub64 : Int64 → Int64 → Int64
sub64 a b = (a % int64_size + int64_size - b % int64_size) % int64_size

-- -a
abbrev pub neg64 : Int64 → Int64
neg64 a = sub64 0 a

-- a < 0
abbrev pub is_negative : Int64 → Bool
is_negative a = leb 9223372036854775808 (a % int64_size)

pub add64_assoc : (a b c : Int64) → add64 (add64 a b) c ≡ add64 a (add64 b c)
add64_assoc a b c = omega arith

pub add64_comm : (a b : Int64) → add64 a b ≡ add64 b a
add64_comm a b = omega arith

pub add64-sub64 : (a b : Int64) → add64 (sub64 a b) b ≡ a % int64_size
add64-sub64 a b = omega arith

pub sub64-add64 : (a b : Int64) → sub64 (add64 a b) b ≡ a % int64_size
sub64-add64 a b = omega arith
