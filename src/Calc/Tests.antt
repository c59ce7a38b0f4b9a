-- ===== src/Calc/Tests.antt =====
-- Runs of the calculator, and the theorems at concrete expressions.
use Prim.Native.String.{String}
use Prim.Native.Char.{code}
use demo_class.Common.{ℕ, ◌≡◌, refl, List, [], ◌∷◌, arith}
use demo_class.Common.Int.{pos, negsuc}
use demo_class.CInt.{c_add, c_sub, c_mul, c_div}
use demo_class.Calc.{
  Calc, ret, out_of_fuel, num, opr, bracket_loop, calc_main, calc_ready, calc_init, calc_destroy,
}
use demo_class.Calc.Expr.{Expr, lit, group, neg, bin, sub, mul, div, print}
use demo_class.Calc.Steps.{calc}
use demo_class.Calc.Correct.{calc_main-eval}
use demo_class.Calc.Ends.{bracket_loop-diverges}

abbrev codes : String → List ℕ
codes String.[] = []
codes (String.◌∷◌ c s) = code c ∷ codes s

abbrev idle : Calc
idle = record { nums = []; oprs = []; flag = num }

precedence : calc_main (codes "1  + 2 * 3  - 4") calc_ready ≡ ret (pos 3) idle
unfolding calc_main
precedence = refl

brackets : calc_main (codes "2*(3-10)/2") calc_ready ≡ ret (negsuc 6) idle
unfolding calc_main
brackets = refl

-- `6 / -2 * 3`: a sign behind an operator takes in all that binds more tightly than `-`
sign_after_operator : calc_main (codes "6/-2*3") calc_ready ≡ ret (negsuc 0) idle
unfolding calc_main
sign_after_operator = refl

-- an error inside brackets is dropped
division_in_brackets : calc_main (codes "(1/0)") calc_ready ≡ ret (pos 0) idle
unfolding calc_main
division_in_brackets = refl

-- a second expression that begins with a sign, after a first one
sign_on_reuse : calc_main (codes "-1") idle ≡ ret (negsuc 1) (calc [] (b'-' ∷ []) num)
unfolding calc_main
sign_on_reuse = refl

-- -12 * (7 - 10) / 5
abbrev sample : Expr
sample =
    neg
      (bin div (bin mul (lit 1 (2 ∷ [])) (group (bin sub (lit 7 []) (lit 1 (0 ∷ []))))) (lit 5 []))

sample_text : print sample ≡ codes "-12*(7-10)/5"
sample_text = refl

calc_main-eval_example :
    calc_main (print sample) (calc (pos 9 ∷ []) [] opr) ≡ ret (pos 7) (calc (pos 9 ∷ []) [] num)
unfolding c_add c_sub c_mul c_div
calc_main-eval_example = calc_main-eval sample (pos 7) (pos 9 ∷ []) (omega arith) refl

-- what `(1+)` comes to
bracket_loop-diverges_example :
    bracket_loop 1000 (calc (pos 1 ∷ []) (b'+' ∷ b'(' ∷ []) opr) ≡ out_of_fuel
bracket_loop-diverges_example =
    bracket_loop-diverges 1000 b'+' (pos 1 ∷ []) (b'(' ∷ []) opr refl (omega arith)

-- memory for one of the stacks only
no_memory : (calc_init 8 0).0 ≡ negsuc 0
unfolding calc_init
no_memory = refl

emptied : (calc_destroy idle).1 ≡ idle
unfolding calc_destroy
emptied = refl
