-- ===== src/SList/Chain.antt =====
-- Nodes in a row, each one's `next` the following, and the walks over them.
use demo_class.Common.{
  ℕ, zero, suc, ◌<◌, ◌≡◌, refl, ap, ◌∙◌, true, false, some, List, [], ◌∷◌, map, ◌==◌, arith, length,
}
use demo_class.Links.Seg.{has, IsDistinct}
use demo_class.SList.{Nodes, each_loop, slist_for_each}

-- from `a` through `xs` to `end`
abbrev pub Chain : (ℕ → ℕ) → ℕ → List ℕ → ℕ → Type 0
Chain next a [] end = next a ≡ end
Chain next a (x ∷ xs) end = (next a ≡ x) × Chain next x xs end

-- behind `head` stand the nodes `xs`, the last of them before `head` again
pub record Loop (h : Nodes) (head : ℕ) (xs : List ℕ) : Type 0 where
  pub distinct : IsDistinct (head ∷ xs)
  pub linked : Chain h.next head xs head

-- a row depends on the `next` of its nodes
pub Chain-frame :
    (f g : ℕ → ℕ) (a end : ℕ) (xs : List ℕ)
    → ((p : ℕ) → has p (a ∷ xs) ≡ true → g p ≡ f p)
    → Chain f a xs end
    → Chain g a xs end
Chain-frame f g a end [] same c = same a (ground arith) ∙ c
Chain-frame f g a end (x ∷ xs) same c =
    (same a (ground arith) ∙ c.0, Chain-frame f g x end xs (λ p h. same p (ground arith)) c.1)

each_loop-Chain :
    (h : Nodes) (xs : List ℕ) (k head a : ℕ)
    → Chain h.next a xs head
    → has head xs ≡ false
    → length xs < k
    → each_loop k head (h.next a) h ≡ some (map h.elem xs)
unfolding each_loop
each_loop-Chain h xs zero head a c out fuel = absurd (omega arith)
each_loop-Chain h [] (suc k) head a c out fuel =
    let home : (head == head) ≡ true = ground arith in
    let step : each_loop (suc k) head head h ≡ some [] = rw home refl in
    ap (λ q. each_loop (suc k) head q h) c ∙ step
each_loop-Chain h (x ∷ xs) (suc k) head a c out fuel =
    let more : (x == head) ≡ false = ground arith in
    let rest = each_loop-Chain h xs k head x c.1 (ground arith) (omega arith) in
    let step : each_loop (suc k) head x h ≡ some (map h.elem (x ∷ xs)) = rw (more, rest) refl in
    ap (λ q. each_loop (suc k) head q h) c.0 ∙ step

-- `slist_for_each` ends, and meets the data of the nodes in order.
pub slist_for_each-Loop :
    (h : Nodes) (head k : ℕ) (xs : List ℕ)
    → Loop h head xs
    → length xs < k
    → slist_for_each k head h ≡ some (map h.elem xs)
unfolding slist_for_each
slist_for_each-Loop h head k xs l fuel = each_loop-Chain h xs k head head l.linked l.distinct.0 fuel
