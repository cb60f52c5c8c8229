-- ===== src/Common/Number.antt =====
-- JavaScript's numbers and their order. Every finite double is a whole multiple of 2^-1074, and by that
-- multiple a number stands here. An infinity comes out as a multiple beyond all finite ones.
use Prim.Native.Nat.{ℕ, zero, suc, ◌+◌, ◌-◌, ◌*◌, ◌/◌, ◌%◌, ◌^◌}
use mathlib.Core.Bool.{Bool, true, false, not}
use mathlib.Core.Option.{Option, none, some}
use query_craft.Common.Tests.{ltb, ◌==◌, if◌then◌else◌}
use query_craft.Common.Int.{ℤ, pos, negsuc}
use query_craft.Common.Value.{Value, null, bool, int, real}

-- The multiple that is 1.
unfoldable pub unit : ℕ
unit = 2 ^ 1074

-- The eleven bits of the exponent.
unfoldable pub exponent : ℕ → ℕ
exponent bits = (bits / 2 ^ 52) % 2 ^ 11

unfoldable pub magnitude : ℕ → ℕ
unfolding exponent
magnitude bits =
    if exponent bits == 0 then bits % 2 ^ 52 else (bits % 2 ^ 52 + 2 ^ 52) * 2 ^ (exponent bits - 1)

abbrev negated : ℕ → ℤ
negated zero = pos 0
negated (suc n) = negsuc n

unfoldable pub multiple_of : ℤ → ℤ
unfolding unit
multiple_of (pos n) = pos (n * unit)
multiple_of (negsuc n) = negated ((n + 1) * unit)

unfoldable pub double : ℕ → ℤ
unfolding magnitude
double bits =
    if ltb bits 0x8000000000000000
    then pos (magnitude bits)
    else negated (magnitude (bits - 0x8000000000000000))

abbrev bit : Bool → ℕ
bit true = 1
bit false = 0

-- What `<` takes a value for. A text that reads as a number is left out: the schemas give numbers.
unfoldable pub number : Value → Option ℤ
unfolding multiple_of double
number null = some (pos 0)
number (bool b) = some (multiple_of (pos (bit b)))
number (int z) = some (multiple_of z)
number (real bits) = some (double bits)
number v = none

-- `Number.isFinite`.
unfoldable pub is_finite : Value → Bool
unfolding exponent
is_finite (int z) = true
is_finite (real bits) = not (exponent bits == 2047)
is_finite v = false

unfoldable pub less_int : ℤ → ℤ → Bool
less_int (pos m) (pos n) = ltb m n
less_int (pos m) (negsuc n) = false
less_int (negsuc m) (pos n) = true
less_int (negsuc m) (negsuc n) = ltb n m

abbrev less_option : Option ℤ → Option ℤ → Bool
less_option (some a) (some b) = less_int a b
less_option a b = false

-- `a < b`.
unfoldable pub less : Value → Value → Bool
unfolding number less_int
less a b = less_option (number a) (number b)
