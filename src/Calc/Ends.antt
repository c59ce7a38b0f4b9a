-- ===== src/Calc/Ends.antt =====
-- Where the calculator's loops end, and where one does not; blanks.
use demo_class.Common.{
  ℕ, zero, suc, ◌<◌, ◌≡◌, ◌≢◌, refl, Bool, true, false, Option, none, some, List, [], ◌∷◌, arith,
  length, ltb, ◌==◌, Bool-cases, inl, inr, if◌then◌else◌,
}
use demo_class.Common.Int.{ℤ, pos, negsuc}
use demo_class.Calc.{
  Calc, Flag, Run, ret, undefined, out_of_fuel, ok, store, and_then, opr2level, do_stack, operate,
  opr_loop, bracket_loop, finish_loop, handle, scan, calc_main, is_blank,
}
use demo_class.Calc.Steps.{calc}

-- the call ended with an error code, or in undefined behaviour, or took the top operator off
data Worked (n : ℕ) : Run ℤ → Type 0 where
  took : {z : ℤ} {s : Calc} → length s.oprs ≡ n → Worked n (ret z s)
  failed : {c : ℕ} {s : Calc} → Worked n (ret (negsuc c) s)
  broke : Worked n undefined

Worked-if :
    (n : ℕ) (b : Bool) (x y : Run ℤ) → Worked n x → Worked n y → Worked n (if b then x else y)
Worked-if n true x y h k = h
Worked-if n false x y h k = k

Worked-store : (o : Option ℤ) (s : Calc) → Worked (length s.oprs) (store o s)
Worked-store none s = broke
Worked-store (some v) s = took refl

operate-Worked : (c : ℕ) (a b : ℤ) (s : Calc) → Worked (length s.oprs) (operate c a b s)
unfolding operate
operate-Worked c a b s = search (Worked-if, Worked-store, failed, broke) depth 8

do_stack-Worked :
    (ns : List ℤ) (c : ℕ) (os : List ℕ) (f : Flag)
    → Worked (length os) (do_stack (calc ns (c ∷ os) f))
unfolding do_stack
do_stack-Worked [] c os f = failed
do_stack-Worked (b ∷ []) c os f = failed
do_stack-Worked (b ∷ a ∷ ns) c os f = operate-Worked c a b (calc ns os f)

-- a loop that goes on after `do_stack` with less fuel and one operator less ends
and_then-ends :
    (n : ℕ) (r : Run ℤ) (stop : ℤ → Calc → Run ℤ) (go : Calc → Run ℤ)
    → Worked n r
    → ((z : ℤ) (s : Calc) → stop z s ≢ out_of_fuel)
    → ((s : Calc) → length s.oprs ≡ n → go s ≢ out_of_fuel)
    → and_then r stop go ≢ out_of_fuel
and_then-ends n (ret (pos c) s) stop go (took e) h k = k s e
and_then-ends n (ret (negsuc c) s) stop go w h k = h (negsuc c) s
and_then-ends n undefined stop go w h k = λ e. cc
and_then-ends n out_of_fuel stop go w h k = elim w [ ]

-- The loop of `opr_handle` ends, whatever is on the stacks.
pub opr_loop-ends : (k c : ℕ) (s : Calc) → length s.oprs < k → opr_loop k c s ≢ out_of_fuel
unfolding opr_loop
opr_loop-ends zero c s h = absurd (omega arith)
opr_loop-ends (suc k) c s h = go s.nums s.oprs s.flag h (opr_loop-ends k c)
  where
    go :
        (ns : List ℤ) (os : List ℕ) (f : Flag)
        → length os < suc k
        → ((t : Calc) → length t.oprs < k → opr_loop k c t ≢ out_of_fuel)
        → opr_loop (suc k) c (calc ns os f) ≢ out_of_fuel
    go ns [] f h ih = λ e. cc
    go ns (d ∷ os) f h ih = elim (Bool-cases (ltb (opr2level d) (opr2level c))) [
      | inl e ↦ rw e (λ e'. cc)
      | inr e ↦
          rw (e, opr_loop)
            (and_then-ends (length os) (do_stack (calc ns (d ∷ os) f)) _ _
              (do_stack-Worked ns d os f) (λ z t e'. cc) (λ t w. ih t (omega arith)))
    ]

-- The last loop of `calc_main` ends, whatever is on the stacks.
pub finish-ends : (k : ℕ) (s : Calc) → length s.oprs < k → finish_loop k s ≢ out_of_fuel
unfolding finish_loop
finish-ends zero s h = absurd (omega arith)
finish-ends (suc k) s h = go s.nums s.oprs s.flag h (finish-ends k)
  where
    go :
        (ns : List ℤ) (os : List ℕ) (f : Flag)
        → length os < suc k
        → ((t : Calc) → length t.oprs < k → finish_loop k t ≢ out_of_fuel)
        → finish_loop (suc k) (calc ns os f) ≢ out_of_fuel
    go [] [] f h ih = λ e. cc
    go (n ∷ ns) [] f h ih = λ e. cc
    go ns (d ∷ os) f h ih = elim (Bool-cases (d == b'(')) [
      | inl e ↦ rw e (λ e'. cc)
      | inr e ↦
          rw (e, finish_loop)
            (and_then-ends (length os) (do_stack (calc ns (d ∷ os) f)) _ _
              (do_stack-Worked ns d os f) (λ z t e'. cc) (λ t w. ih t (omega arith)))
    ]

-- With fewer than two numbers left, an operator on top of the operators keeps the loop on a closing
-- bracket going for ever: however much fuel it is given, it does not end.
pub bracket_loop-diverges :
    (k c : ℕ) (ns : List ℤ) (os : List ℕ) (f : Flag)
    → (c == b'(') ≡ false
    → length ns < 2
    → bracket_loop k (calc ns (c ∷ os) f) ≡ out_of_fuel
unfolding bracket_loop do_stack
bracket_loop-diverges zero c ns os f h l = refl
bracket_loop-diverges (suc k) c [] os f h l = rw h (bracket_loop-diverges k c [] os f h l)
bracket_loop-diverges (suc k) c (a ∷ []) os f h l =
    rw h (bracket_loop-diverges k c [] os f h (omega arith))
bracket_loop-diverges (suc k) c (a ∷ b ∷ ns) os f h l = absurd (omega arith)

-- The expression without its blanks.
abbrev pub strip : List ℕ → List ℕ
strip [] = []
strip (c ∷ cs) = if is_blank c then strip cs else c ∷ strip cs

handle-blank : (c : ℕ) (s : Calc) → is_blank c ≡ true → handle c s ≡ ok s
unfolding handle
handle-blank c s h = ground arith

scan-strip : (cs : List ℕ) (s : Calc) → scan cs s ≡ scan (strip cs) s
unfolding scan
scan-strip [] s = refl
scan-strip (c ∷ cs) s = elim (Bool-cases (is_blank c)) [
  | inl h ↦ rw (h, handle-blank c s h) (scan-strip cs s)
  | inr h ↦ rw h (λ i. and_then (handle c s) ret (λ t. scan-strip cs t i))
]

-- Blanks, tabs and line ends between characters make no difference, not even between the digits of
-- a number.
pub calc_main-strip : (cs : List ℕ) (s : Calc) → calc_main cs s ≡ calc_main (strip cs) s
unfolding calc_main
calc_main-strip cs s = rw (scan-strip cs s)
