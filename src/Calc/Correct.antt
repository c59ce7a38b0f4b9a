-- ===== src/Calc/Correct.antt =====
-- The calculator gives the value of the expression.
use demo_class.Common.{
  ℕ, ◌+◌, ◌≤◌, ◌<◌, ◌≡◌, refl, ap, sym, ◌∙◌, Option, none, some, List, [], ◌∷◌, ◌++◌, arith, length,
  append_assoc, append-nil,
}
use demo_class.Common.Int.{ℤ, pos}
use demo_class.Calc.{opr, num, ret, ok, opr2level, handle, scan, finish, finish_loop, calc_main}
use demo_class.Calc.Expr.{
  BinOp, sub, Expr, lit, group, neg, bin, symbol, print, level, tightness, IsReadable, apply,
  apply₂, eval,
}
use demo_class.Calc.Steps.{calc, Pending, done, Pending-mono, Pending-snoc, finish_loop-Pending}
use demo_class.Calc.Scan.{
  Fits, Fits-mono, opr2level-symbol, do_stack-apply, scan-lit, scan-symbol, Scanned, tightness-pos,
  Scanned-group,
}

-- a result of an operator has operands
apply₂-eq-some :
    (op : BinOp) (x y : Option ℤ) (w : ℤ)
    → apply₂ op x y ≡ some w
    → (a : ℤ) × (b : ℤ) × (x ≡ some a) × (y ≡ some b) × (apply op a b ≡ some w)
apply₂-eq-some op (some a) (some b) w h = (a, b, refl, refl, h)
apply₂-eq-some op (some a) none w h = cc
apply₂-eq-some op none y w h = cc

Scanned-neg :
    (ns : List ℤ) (os rest : List ℕ) (e : Expr) (b w : ℤ)
    → 2 ≤ tightness e
    → apply sub (pos 0) b ≡ some w
    → Scanned (pos 0 ∷ ns) (b'-' ∷ os) rest e b
    → Scanned ns os rest (neg e) w
unfolding scan handle
Scanned-neg ns os rest e b w h run (ns', os', path, p) = (
  ns',
  os',
  path,
  Pending-snoc (Pending-mono 1 (omega arith) p) refl (omega (arith, opr2level-symbol sub))
      (λ f. do_stack-apply sub (pos 0) b w ns os f run),
)

Scanned-bin :
    (op : BinOp) (ns ns₁ : List ℤ) (os os₁ rest : List ℕ) (l r : Expr) (a b w : ℤ)
    → level op ≤ tightness l
    → level op < tightness r
    → Fits os (level op)
    → apply op a b ≡ some w
    → scan (print l ++ symbol op ∷ (print r ++ rest)) (calc ns os opr)
      ≡ scan (symbol op ∷ (print r ++ rest)) (calc ns₁ os₁ num)
    → Pending ns os a (tightness l) ns₁ os₁
    → Scanned (a ∷ ns) (symbol op ∷ os) rest r b
    → Scanned ns os rest (bin op l r) w
Scanned-bin op ns ns₁ os os₁ rest l r a b w hl hr f run first p (ns', os', second, q) = (
  ns',
  os',
  rw append_assoc
      (first ∙ scan-symbol op a (tightness l) ns ns₁ os os₁ (print r ++ rest) hl f p ∙ second),
  Pending-snoc (Pending-mono (level op) (omega arith) q) refl (omega (arith, opr2level-symbol op))
      (λ g. do_stack-apply op a b w ns os g run),
)

-- The scan of an expression, wherever it stands.
scan-Scanned :
    (e : Expr) (ns : List ℤ) (os rest : List ℕ) (v : ℤ)
    → IsReadable e
    → Fits os (tightness e)
    → eval e ≡ some v
    → Scanned ns os rest e v
unfolding opr2level
scan-Scanned (lit d ds) ns os rest v h f e =
    (v ∷ ns, os, scan-lit d ds v ns os rest h.0 h.1 e, done)
scan-Scanned (group e) ns os rest v h f ev =
    Scanned-group ns os rest e v
      (scan-Scanned e ns (b'(' ∷ os) (b')' ∷ rest) v h (tightness-pos e) ev)
scan-Scanned (neg e) ns os rest v h f ev =
    let (a, b, ea, eb, run) = apply₂-eq-some sub (some (pos 0)) (eval e) v ev in
    let zero_a : pos 0 ≡ a = cc ea in
    Scanned-neg ns os rest e b v h.0 (rw zero_a run)
      (scan-Scanned e (pos 0 ∷ ns) (b'-' ∷ os) rest b h.1 (omega arith) eb)
scan-Scanned (bin op l r) ns os rest v h f ev =
    let (a, b, ea, eb, run) = apply₂-eq-some op (eval l) (eval r) v ev in
    let (ns₁, os₁, first, p) =
      scan-Scanned l ns os (symbol op ∷ (print r ++ rest)) a h.2
        (Fits-mono os (level op) (tightness l) h.0 f) ea in
    Scanned-bin op ns ns₁ os os₁ rest l r a b v h.0 h.1 f run first p
      (scan-Scanned r (a ∷ ns) (symbol op ∷ os) rest b h.3 (omega (arith, opr2level-symbol op)) eb)

finish-Pending :
    (v : ℤ) (l : ℕ) (ns ns' : List ℤ) (os' : List ℕ)
    → 0 < l
    → Pending ns [] v l ns' os'
    → finish (calc ns' os' num) ≡ ret v (calc ns [] num)
unfolding finish
finish-Pending v l ns ns' os' h p =
    rw (finish_loop-Pending (length os' + 1) 1 num h p (omega arith), finish_loop)

-- On the text of an expression whose value `int` arithmetic defines, the calculator ends and
-- returns that value, with its stacks as they were.
pub calc_main-eval :
    (e : Expr) (v : ℤ) (ns : List ℤ)
    → IsReadable e
    → eval e ≡ some v
    → calc_main (print e) (calc ns [] opr) ≡ ret v (calc ns [] num)
unfolding calc_main
calc_main-eval e v ns h ev =
    let (ns', os', run, p) = scan-Scanned e ns [] [] v h tt ev in
    let whole : scan (print e) (calc ns [] opr) ≡ ok (calc ns' os' num) =
      ap (λ (cs : List ℕ). scan cs (calc ns [] opr)) (sym (append-nil (print e))) ∙ run in
    rw whole (finish-Pending v (tightness e) ns ns' os' (tightness-pos e) p)
