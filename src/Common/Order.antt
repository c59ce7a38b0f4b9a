-- ===== src/Common/Order.antt =====
-- What the sources' comparison callbacks return: the sign of the `int` is all that they test.
use Prim.Native.Nat.{compare, Ordering}
use Prim.Native.Nat.Ordering.{lt, eq, gt}
use mathlib.Core.Path.{◌≡◌}
use mathlib.Core.Bool.{Bool, true, false}
use native.Mathlib.Omega.{arith}

-- the tests `n < 0`, `n <= 0`, `n == 0`, `n > 0` and `n >= 0`
abbrev pub is_lt : Ordering → Bool
is_lt lt = true
is_lt _ = false

abbrev pub is_le : Ordering → Bool
is_le gt = false
is_le _ = true

abbrev pub is_eq : Ordering → Bool
is_eq eq = true
is_eq _ = false

abbrev pub is_gt : Ordering → Bool
is_gt gt = true
is_gt _ = false

abbrev pub is_ge : Ordering → Bool
is_ge lt = false
is_ge _ = true

abbrev pub flip : Ordering → Ordering
flip lt = gt
flip eq = eq
flip gt = lt

-- What the callers of the library ask of a comparison: the sign turns round with the arguments,
-- and the order is transitive.
pub record IsOrder {ℓ} {A : Type ℓ} (cmp : A → A → Ordering) : Type ℓ where
  pub flips : (a b : A) → cmp b a ≡ flip (cmp a b)
  pub trans : (a b c : A) → is_le (cmp a b) ≡ true → is_le (cmp b c) ≡ true → is_le (cmp a c) ≡ true

pub compare-IsOrder : IsOrder compare
compare-IsOrder = record { flips = λ a b. ground arith; trans = λ a b c h k. ground arith }

module _ {ℓ} {A : Type ℓ} {cmp : A → A → Ordering} (o : IsOrder cmp) where
  -- `a < x` and `x <= b` give `a <= b`
  pub le_of_lt_ge : (a x b : A) → cmp a x ≡ lt → is_ge (cmp b x) ≡ true → is_le (cmp a b) ≡ true
  le_of_lt_ge a x b h k = o.trans a x b (ground arith) (ground (arith, o.flips b x))
