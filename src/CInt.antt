-- ===== src/CInt.antt =====
-- The `int` of the sources: 32 bits, signed. `none` is an operation that C leaves undefined.
use demo_class.Common.{◌^◌, Bool, ◌&&◌, Option, none, some, ltb, leb, if◌then◌else◌}
use demo_class.Common.Int.{ℤ, pos_part, neg_part, ◌+ℤ◌, ◌-ℤ◌, ◌*ℤ◌, is_zero, quot, rem}

unfoldable pub fits_int : ℤ → Bool
fits_int n = ltb (pos_part n) (2 ^ 31) && leb (neg_part n) (2 ^ 31)

unfoldable pub checked : ℤ → Option ℤ
unfolding fits_int
checked n = if fits_int n then some n else none

unfoldable pub c_add : ℤ → ℤ → Option ℤ
unfolding checked ◌+ℤ◌
c_add a b = checked (a +ℤ b)

unfoldable pub c_sub : ℤ → ℤ → Option ℤ
unfolding checked ◌-ℤ◌
c_sub a b = checked (a -ℤ b)

unfoldable pub c_mul : ℤ → ℤ → Option ℤ
unfolding checked ◌*ℤ◌
c_mul a b = checked (a *ℤ b)

-- the least `int` over -1 does not fit
unfoldable pub c_div : ℤ → ℤ → Option ℤ
unfolding checked quot
c_div a b = if is_zero b then none else checked (quot a b)

-- `a % b` is undefined where `a / b` is
unfoldable pub c_rem : ℤ → ℤ → Option ℤ
unfolding fits_int quot rem
c_rem a b = if is_zero b then none else if fits_int (quot a b) then some (rem a b) else none
