-- ===== src/Calc/Expr.antt =====
-- The expressions that the calculator is for: how they are written, and what they stand for.
use demo_class.Common.{ℕ, ◌≤◌, ◌<◌, Option, none, some, List, [], ◌∷◌, ◌++◌, ◌+◌}
use demo_class.Common.Int.{ℤ, pos}
use demo_class.CInt.{c_add, c_sub, c_mul, c_div, c_rem}
use demo_class.Calc.{append_digit}

pub data BinOp : Type 0 where
  add sub mul div modulo : BinOp

-- a number is its digits; `neg` is a minus sign in front of an expression
pub data Expr : Type 0 where
  lit : ℕ → List ℕ → Expr
  group : Expr → Expr
  neg : Expr → Expr
  bin : BinOp → Expr → Expr → Expr

abbrev pub symbol : BinOp → ℕ
symbol add = b'+'
symbol sub = b'-'
symbol mul = b'*'
symbol div = b'/'
symbol modulo = b'%'

abbrev pub digits : List ℕ → List ℕ
digits [] = []
digits (d ∷ ds) = (b'0' + d) ∷ digits ds

abbrev pub print : Expr → List ℕ
print (lit d ds) = (b'0' + d) ∷ digits ds
print (group e) = b'(' ∷ (print e ++ b')' ∷ [])
print (neg e) = b'-' ∷ print e
print (bin op l r) = print l ++ symbol op ∷ print r

-- how tightly the loosest operator outside brackets binds
abbrev pub level : BinOp → ℕ
level add = 1
level sub = 1
level _ = 2

abbrev pub tightness : Expr → ℕ
tightness (lit d ds) = 3
tightness (group e) = 3
tightness (neg e) = 1
tightness (bin op l r) = level op

abbrev pub AllDigits : List ℕ → Type 0
AllDigits [] = Unit
AllDigits (d ∷ ds) = (d < 10) × AllDigits ds

-- The text of the expression is read back as the expression: `*`, `/` and `%` bind more tightly than
-- `+`, `-` and the sign, and operators that bind alike group to the left.
abbrev pub IsReadable : Expr → Type 0
IsReadable (lit d ds) = (d < 10) × AllDigits ds
IsReadable (group e) = IsReadable e
IsReadable (neg e) = (2 ≤ tightness e) × IsReadable e
IsReadable (bin op l r) =
    (level op ≤ tightness l) × (level op < tightness r) × IsReadable l × IsReadable r

-- the value of `prev` followed by digits
abbrev pub eval_digits : ℤ → List ℕ → Option ℤ
eval_digits prev [] = some prev
eval_digits prev (d ∷ ds) = elim (append_digit prev d) [ none ↦ none | some n ↦ eval_digits n ds ]

abbrev pub apply : BinOp → ℤ → ℤ → Option ℤ
apply add a b = c_add a b
apply sub a b = c_sub a b
apply mul a b = c_mul a b
apply div a b = c_div a b
apply modulo a b = c_rem a b

abbrev pub apply₂ : BinOp → Option ℤ → Option ℤ → Option ℤ
apply₂ op (some a) (some b) = apply op a b
apply₂ op _ _ = none

-- the value in the arithmetic of `int`; `none` where a part of it is undefined, as in `1 / 0`
abbrev pub eval : Expr → Option ℤ
eval (lit d ds) = eval_digits (pos d) ds
eval (group e) = eval e
eval (neg e) = apply₂ sub (some (pos 0)) (eval e)
eval (bin op l r) = apply₂ op (eval l) (eval r)
