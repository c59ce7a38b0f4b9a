-- ===== src/Calc/Scan.antt =====
-- What the scan does with a number, an operator and brackets, with operators waiting on the stack.
use demo_class.Common.{
  ℕ, suc, ◌+◌, ◌-◌, ◌≤◌, ◌<◌, ◌≡◌, refl, true, ◌∙◌, some, List, [], ◌∷◌, ◌++◌, arith, length, ltb,
  append_assoc, Option-cases, inl, inr,
}
use demo_class.Common.Int.{ℤ, pos}
use demo_class.CInt.{c_div}
use demo_class.Calc.{
  Calc, Flag, opr, num, ok, opr2level, do_stack, opr_loop, opr_handle, bracket_loop, num_handle,
  handle, scan, append_digit, is_digit,
}
use demo_class.Calc.Expr.{
  BinOp, add, sub, mul, div, modulo, Expr, lit, group, neg, bin, symbol, digits, print, level,
  tightness, AllDigits, eval_digits, apply,
}
use demo_class.Calc.Steps.{calc, Pending, done, opr_loop-Pending, bracket_loop-Pending}

-- an operator of level `l` would be put on top of `os` at once
abbrev pub Fits : List ℕ → ℕ → Type 0
Fits [] l = Unit
Fits (c ∷ os) l = opr2level c < l

pub Fits-mono : (os : List ℕ) (k l : ℕ) → k ≤ l → Fits os k → Fits os l
Fits-mono [] k l h f = tt
Fits-mono (c ∷ os) k l h f = omega arith

pub opr2level-symbol : (op : BinOp) → opr2level (symbol op) ≡ level op
unfolding opr2level
opr2level-symbol add = refl
opr2level-symbol _ = refl

handle-symbol : (op : BinOp) (s : Calc) → handle (symbol op) s ≡ opr_handle (symbol op) s
unfolding handle
handle-symbol add s = refl
handle-symbol _ s = refl

handle-digit : (d : ℕ) (s : Calc) → d < 10 → handle (b'0' + d) s ≡ num_handle (b'0' + d) s
unfolding handle
handle-digit d s h = let digit : is_digit (b'0' + d) ≡ true = ground arith in rw digit

-- `do_stack` on a stack that ends in two numbers and an operator
pub do_stack-apply :
    (op : BinOp) (a b w : ℤ) (ns : List ℤ) (os : List ℕ) (f : Flag)
    → apply op a b ≡ some w
    → do_stack (calc (b ∷ a ∷ ns) (symbol op ∷ os) f) ≡ ok (calc (w ∷ ns) os f)
unfolding do_stack c_div
do_stack-apply add a b w ns os f h = rw h
do_stack-apply sub a b w ns os f h = rw h
do_stack-apply mul a b w ns os f h = rw h
do_stack-apply div a b w ns os f h = ground arith
do_stack-apply modulo a b w ns os f h = rw h

handle-append :
    (d : ℕ) (prev n : ℤ) (ns : List ℤ) (os : List ℕ)
    → d < 10
    → append_digit prev d ≡ some n
    → handle (b'0' + d) (calc (prev ∷ ns) os num) ≡ ok (calc (n ∷ ns) os num)
unfolding num_handle
handle-append d prev n ns os h e =
    let back : b'0' + d - b'0' ≡ d = omega arith in rw (handle-digit d _ h, back, e)

scan-digits :
    (ds : List ℕ) (prev v : ℤ) (ns : List ℤ) (os rest : List ℕ)
    → AllDigits ds
    → eval_digits prev ds ≡ some v
    → scan (digits ds ++ rest) (calc (prev ∷ ns) os num) ≡ scan rest (calc (v ∷ ns) os num)
unfolding scan
scan-digits [] prev v ns os rest h e = let same : prev ≡ v = cc in rw same
scan-digits (d ∷ ds) prev v ns os rest h e = elim (Option-cases (append_digit prev d)) [
  | inl bad ↦ absurd (ground arith)
  | inr (n, good) ↦
      rw (handle-append d prev n ns os h.0 good)
        (scan-digits ds n v ns os rest h.1 (rw (good, eval_digits) at e))
]

pub scan-lit :
    (d : ℕ) (ds : List ℕ) (v : ℤ) (ns : List ℤ) (os rest : List ℕ)
    → d < 10
    → AllDigits ds
    → eval_digits (pos d) ds ≡ some v
    → scan (print (lit d ds) ++ rest) (calc ns os opr) ≡ scan rest (calc (v ∷ ns) os num)
unfolding scan num_handle
scan-lit d ds v ns os rest h hs e =
    let back : b'0' + d - b'0' ≡ d = omega arith in
    rw (handle-digit d (calc ns os opr) h, back) (scan-digits ds (pos d) v ns os rest hs e)

opr_loop-push :
    (op : BinOp) (k : ℕ) (a : ℤ) (ns : List ℤ) (os : List ℕ) (f : Flag)
    → Fits os (level op)
    → opr_loop (suc k) (symbol op) (calc (a ∷ ns) os f) ≡ ok (calc (a ∷ ns) (symbol op ∷ os) f)
unfolding opr_loop
opr_loop-push op k a ns [] f h = refl
opr_loop-push op k a ns (c ∷ os) f h =
    let over : ltb (opr2level c) (opr2level (symbol op)) ≡ true =
      ground (arith, opr2level-symbol op) in
    rw over

-- a binary operator: what waits and binds as tightly is worked off first
pub scan-symbol :
    (op : BinOp) (a : ℤ) (l : ℕ) (ns ns' : List ℤ) (os os' rest : List ℕ)
    → level op ≤ l
    → Fits os (level op)
    → Pending ns os a l ns' os'
    → scan (symbol op ∷ rest) (calc ns' os' num) ≡ scan rest (calc (a ∷ ns) (symbol op ∷ os) opr)
unfolding scan opr_handle
scan-symbol op a l ns ns' os os' rest h f p = rw (
  handle-symbol op (calc ns' os' num),
  opr_loop-Pending (symbol op) (length os' + 1) (suc (length os)) opr (rw (opr2level-symbol op) h) p
      (omega arith),
  opr_loop-push op (length os) a ns os opr f,
)

-- After the text of an expression the operators of it wait that are yet to be run.
abbrev pub Scanned : List ℤ → List ℕ → List ℕ → Expr → ℤ → Type 0
Scanned ns os rest e v =
    (ns' : List ℤ) × (os' : List ℕ) × (scan (print e ++ rest) (calc ns os opr)
      ≡ scan rest (calc ns' os' num))
    × Pending ns os v (tightness e) ns' os'

pub tightness-pos : (e : Expr) → 0 < tightness e
tightness-pos (lit d ds) = omega arith
tightness-pos (group e) = omega arith
tightness-pos (neg e) = omega arith
tightness-pos (bin add l r) = omega arith
tightness-pos (bin sub l r) = omega arith
tightness-pos (bin mul l r) = omega arith
tightness-pos (bin div l r) = omega arith
tightness-pos (bin modulo l r) = omega arith

-- a closing bracket works off what waits and drops the opening one
scan-close :
    (v : ℤ) (l : ℕ) (ns ns' : List ℤ) (os os' rest : List ℕ)
    → 0 < l
    → Pending ns (b'(' ∷ os) v l ns' os'
    → scan (b')' ∷ rest) (calc ns' os' num) ≡ scan rest (calc (v ∷ ns) os num)
unfolding scan handle
scan-close v l ns ns' os os' rest h p = rw (
  bracket_loop-Pending (length os' + 1) (suc (suc (length os))) num h p (omega arith),
  bracket_loop,
)

pub Scanned-group :
    (ns : List ℤ) (os rest : List ℕ) (e : Expr) (v : ℤ)
    → Scanned ns (b'(' ∷ os) (b')' ∷ rest) e v
    → Scanned ns os rest (group e) v
unfolding scan handle
Scanned-group ns os rest e v (ns', os', run, p) = (
  v ∷ ns,
  os,
  rw append_assoc (run ∙ scan-close v (tightness e) ns ns' os os' rest (tightness-pos e) p),
  done,
)
