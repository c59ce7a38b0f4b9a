-- ===== src/Calc.antt =====
-- 01DataStruct/03Calc/calc.c and calc.h: an infix calculator with a stack of numbers and a stack of
-- operators. A stack is the list of its values, the top first; `cur` is the rest of the expression; a
-- character is its code.
pub mod Expr
pub mod Steps
pub mod Scan
pub mod Correct
pub mod Ends
mod Tests
use demo_class.Common.{
  ℕ, zero, suc, ◌+◌, ◌-◌, Bool, ◌&&◌, ◌||◌, Option, none, some, List, [], ◌∷◌, ltb, leb, ◌==◌,
  if◌then◌else◌, length,
}
use demo_class.Common.Int.{ℤ, pos, negsuc, is_zero, is_neg}
use demo_class.CInt.{c_add, c_sub, c_mul, c_div, c_rem}

-- what the last character was that counts
pub data Flag : Type 0 where
  opr num : Flag

-- `struct calc_info` without `cur`
pub record Calc : Type 0 where
  pub nums : List ℤ
  pub oprs : List ℕ
  pub flag : Flag

-- what a call ends in: a return value and the structure that it leaves; behaviour that C leaves
-- undefined; or, of a loop that runs on fuel, no end within the fuel
pub data Run (A : Type 0) : Type 0 where
  ret : A → Calc → Run A
  undefined : Run A
  out_of_fuel : Run A

abbrev pub ok : Calc → Run ℤ
ok s = ret (pos 0) s

abbrev pub fail : ℕ → Calc → Run ℤ
fail n s = ret (negsuc n) s

abbrev pub push_num : ℤ → Calc → Calc
push_num n s = record s { nums = n ∷ s.nums }

abbrev pub push_opr : ℕ → Calc → Calc
push_opr c s = record s { oprs = c ∷ s.oprs }

abbrev pub is_digit : ℕ → Bool
is_digit c = leb b'0' c && leb c b'9'

-- stores `n`, if it is defined
abbrev pub store : Option ℤ → Calc → Run ℤ
store none s = undefined
store (some n) s = ok (push_num n s)

-- `n += prev_n * 10`
abbrev pub append_digit : ℤ → ℕ → Option ℤ
append_digit prev d = elim (c_mul prev (pos 10)) [ none ↦ none | some p ↦ c_add (pos d) p ]

pub num_handle : ℕ → Calc → Run ℤ
unfolding c_add c_mul
num_handle c s = elim s.flag [
  | opr ↦ ok (push_num (pos (c - b'0')) (record s { flag = num }))
  | num ↦ elim s.nums [
    | [] ↦ store (append_digit (pos 0) (c - b'0')) s
    | prev ∷ rest ↦ store (append_digit prev (c - b'0')) (record s { nums = rest })
  ]
]

-- `(` has level 0, and so has an operator that is reported as unknown
pub opr2level : ℕ → ℕ
opr2level c =
    if c == b'*' || (c == b'/' || c == b'%') then 2 else if c == b'+' || c == b'-' then 1 else 0

-- the `switch` of `do_stack`: with another operator `ret` has no value
pub operate : ℕ → ℤ → ℤ → Calc → Run ℤ
unfolding c_add c_sub c_mul c_div c_rem
operate c a b s =
    if c == b'+'
    then store (c_add a b) s
    else if c == b'-'
    then store (c_sub a b) s
    else if c == b'*'
    then store (c_mul a b) s
    else if c == b'/'
    then (if is_zero b then fail 2 s else store (c_div a b) s)
    else if c == b'%'
    then store (c_rem a b) s
    else undefined

-- pops two numbers and an operator, and pushes the result
pub do_stack : Calc → Run ℤ
unfolding operate
do_stack s = elim s.nums [
  | [] ↦ fail 0 s
  | b ∷ rest ↦ elim rest [
    | [] ↦ fail 0 (record s { nums = [] })
    | a ∷ ns ↦ elim s.oprs [
      | [] ↦ fail 1 (record s { nums = ns })
      | c ∷ os ↦ operate c a b (record s { nums = ns; oprs = os })
    ]
  ]
]

-- goes on after a call that returned 0 or more, and returns what `stop` makes of a failure
abbrev pub and_then : Run ℤ → (ℤ → Calc → Run ℤ) → (Calc → Run ℤ) → Run ℤ
and_then (ret code s) stop go = if is_neg code then stop code s else go s
and_then undefined stop go = undefined
and_then out_of_fuel stop go = out_of_fuel

-- `while (1)` of `opr_handle`: works off the operators that bind as tightly, then pushes `c`
pub opr_loop : ℕ → ℕ → Calc → Run ℤ
unfolding opr2level
opr_loop zero c s = out_of_fuel
opr_loop (suc k) c s = elim s.oprs [
  | [] ↦ ok (push_opr c s)
  | top ∷ os ↦
      let rest = and_then (do_stack s) (λ _ t. fail 0 t) (opr_loop k c) in
      if ltb (opr2level top) (opr2level c) then ok (push_opr c s) else rest
]

-- A second operator in a row: `+` is dropped, `-` is taken for `0 -`, and any other is reported
-- and then treated as the first.
pub opr_handle : ℕ → Calc → Run ℤ
unfolding opr_loop do_stack
opr_handle c s = elim s.flag [
  | num ↦ opr_loop (length s.oprs + 1) c (record s { flag = opr })
  | opr ↦
      if c == b'+'
      then ok s
      else if c == b'-'
      then ok (push_opr c (push_num (pos 0) s))
      else opr_loop (length s.oprs + 1) c s
]

-- the loop on `)`: what `do_stack` returns is dropped
pub bracket_loop : ℕ → Calc → Run ℤ
bracket_loop zero s = out_of_fuel
bracket_loop (suc k) s = elim s.oprs [
  | [] ↦ fail 0 s
  | top ∷ os ↦
      let rest = and_then (do_stack s) (λ _. bracket_loop k) (bracket_loop k) in
      if top == b'(' then ok (record s { oprs = os }) else rest
]

pub bracket_handle : ℕ → Calc → Run ℤ
unfolding bracket_loop do_stack
bracket_handle c s = if c == b'(' then ok (push_opr c s) else bracket_loop (length s.oprs + 1) s

abbrev pub is_opr : ℕ → Bool
is_opr c = c == b'+' || (c == b'-' || (c == b'*' || (c == b'/' || c == b'%')))

abbrev pub is_blank : ℕ → Bool
is_blank c = c == b' ' || (c == 10 || c == 9)

-- the `switch` on a character
pub handle : ℕ → Calc → Run ℤ
unfolding num_handle opr_handle bracket_handle
handle c s =
    if is_digit c
    then num_handle c s
    else if is_opr c
    then opr_handle c s
    else if is_blank c
    then ok s
    else if c == b'(' || c == b')'
    then bracket_handle c s
    else fail 0 s

-- the `for` loop over the expression; a handler that fails ends it with its code
pub scan : List ℕ → Calc → Run ℤ
scan [] s = ok s
scan (c ∷ cs) s = and_then (handle c s) ret (scan cs)

-- the loop that works off what is left, and the last `NUM_POP`
pub finish_loop : ℕ → Calc → Run ℤ
finish_loop zero s = out_of_fuel
finish_loop (suc k) s = elim s.oprs [
  | [] ↦ elim s.nums [ [] ↦ ok s | n ∷ ns ↦ ret n (record s { nums = ns }) ]
  | top ∷ os ↦
      let rest = and_then (do_stack s) (λ _ t. fail 1 t) (finish_loop k) in
      if top == b'(' then fail 2 s else rest
]

pub finish : Calc → Run ℤ
unfolding finish_loop do_stack
finish s = finish_loop (length s.oprs + 1) s

pub calc_main : List ℕ → Calc → Run ℤ
unfolding scan handle finish
calc_main expr s = and_then (scan expr s) ret finish

abbrev pub calc_ready : Calc
calc_ready = record { nums = []; oprs = []; flag = opr }

-- the addresses are those that `malloc` gives for the two stacks, 0 for NULL; nothing is set up behind an error
unfoldable pub calc_init : ℕ → ℕ → ℤ × Option Calc
calc_init nums_block oprs_block =
    if nums_block == 0 || oprs_block == 0 then (negsuc 0, none) else (pos 0, some calc_ready)

-- both stacks are emptied and freed
unfoldable pub calc_destroy : Calc → ℤ × Calc
calc_destroy s = (pos 0, record s { nums = []; oprs = [] })
