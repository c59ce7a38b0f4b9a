-- ===== src/SList/Invert.antt =====
-- `slist_invert` turns the list round.
use demo_class.Common.{
  ℕ, zero, suc, ◌<◌, ◌≡◌, refl, true, false, some, List, [], ◌∷◌, reverse, ◌==◌, arith, length,
}
use mathlib.Core.Path.{subst}
use mathlib.Core.List.{reverse_aux}
use demo_class.Links.Seg.{has, IsDistinct}
use demo_class.SList.{Nodes, invert_loop, slist_invert, set_next}
use demo_class.SList.Chain.{Chain, Loop, Chain-frame}

-- the nodes of `xs` one by one before `ys`
abbrev onto : List ℕ → List ℕ → List ℕ
onto [] ys = ys
onto (x ∷ xs) ys = onto xs (x ∷ ys)

onto-reverse_aux : (xs ys : List ℕ) → onto xs ys ≡ reverse_aux xs ys
onto-reverse_aux [] ys = refl
onto-reverse_aux (x ∷ xs) ys = onto-reverse_aux xs (x ∷ ys)

-- where a row begins, and its links up to the head
abbrev first : ℕ → List ℕ → ℕ
first head [] = head
first head (x ∷ xs) = x

abbrev Row : (ℕ → ℕ) → ℕ → List ℕ → Type 0
Row next head [] = Unit
Row next head (x ∷ xs) = Chain next x xs head

Chain-first :
    (next : ℕ → ℕ) (a head : ℕ) (xs : List ℕ)
    → Chain next a xs head
    → (next a ≡ first head xs) × Row next head xs
Chain-first next a head [] c = (c, tt)
Chain-first next a head (x ∷ xs) c = c

Row-frame :
    (f g : ℕ → ℕ) (head : ℕ) (xs : List ℕ)
    → ((p : ℕ) → has p xs ≡ true → g p ≡ f p)
    → Row f head xs
    → Row g head xs
Row-frame f g head [] same r = tt
Row-frame f g head (x ∷ xs) same r = Chain-frame f g x head xs same r

-- a row behind a node whose `next` is its first
Row-cons :
    (next : ℕ → ℕ) (a head : ℕ) (xs : List ℕ)
    → next a ≡ first head xs
    → Row next head xs
    → Chain next a xs head
Row-cons next a head [] e r = e
Row-cons next a head (x ∷ xs) e r = (e, r)

invert_loop_lem :
    (xs done : List ℕ) (k head : ℕ) (h : Nodes)
    → length xs < k
    → IsDistinct (head ∷ xs)
    → IsDistinct (head ∷ done)
    → ((p : ℕ) → has p xs ≡ true → has p done ≡ false)
    → Row h.next head xs
    → Row h.next head done
    → (h' : Nodes) × (invert_loop k head (first head done) (first head xs) h ≡ some h')
      × Loop h' head (onto xs done)
      × (h'.elem ≡ h.elem)
unfolding invert_loop
invert_loop_lem xs done zero head h fuel dx dd apart rx rd = absurd (omega arith)
invert_loop_lem [] done (suc k) head h fuel dx dd apart rx rd =
    let home : (head == head) ≡ true = ground arith in
    let h' = set_next head (first head done) h in
    rw home (
      h',
      refl,
      record {
        distinct = dd;
        linked =
            Row-cons h'.next head head done (ground arith)
              (Row-frame h.next h'.next head done (λ p at. ground (arith, dd.0)) rd);
      },
      refl,
    )
invert_loop_lem (x ∷ xs) done (suc k) head h fuel dx dd apart rx rd =
    let more : (x == head) ≡ false = ground arith in
    let h₁ = set_next x (first head done) h in
    let (to, rest) = Chain-first h.next x head xs rx in
    let out : has x done ≡ false = apart x (ground arith) in
    rw (more, to)
      (invert_loop_lem xs (x ∷ done) k head h₁ (omega arith) (ground (arith, dx.0), dx.1.1)
        (ground (arith, dd.0, dx.0), (out, dd.1)) (λ p at. ground (arith, apart p, dx.1.0))
        (Row-frame h.next h₁.next head xs (λ p at. ground (arith, dx.1.0)) rest)
        (Row-cons h₁.next x head done (ground arith)
          (Row-frame h.next h₁.next head done (λ p at. ground (arith, out)) rd)))

-- `slist_invert` ends, leaves the nodes in the reverse order, and keeps their data.
pub slist_invert-Loop :
    (h : Nodes) (head k : ℕ) (xs : List ℕ)
    → Loop h head xs
    → length xs < k
    → (h' : Nodes) × (slist_invert k head h ≡ some h')
      × Loop h' head (reverse xs)
      × (h'.elem ≡ h.elem)
unfolding slist_invert
slist_invert-Loop h head k xs l fuel =
    let (to, row) = Chain-first h.next head head xs l.linked in
    let (h', run, turned, kept) =
      invert_loop_lem xs [] k head h fuel l.distinct (refl, tt) (λ p at. refl) row tt in
    (h', rw to run, subst (Loop h' head) (onto-reverse_aux xs []) turned, kept)
