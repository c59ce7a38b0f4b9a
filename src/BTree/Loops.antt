-- ===== src/BTree/Loops.antt =====
-- btree.c: the walks with a stack of pointers visit the nodes in the order of the recursive walks.
use mathlib.Core.List.{reverse_aux, reverse_aux-eq}
use demo_class.Common.{
  ℕ, zero, suc, ◌+◌, ◌-◌, ◌*◌, ◌≤◌, ◌<◌, ◌≡◌, refl, true, false, some, List, [], ◌∷◌, ◌++◌, arith,
  ◌∙◌, sym, ap, reverse, reverse-reverse, append-nil, if◌then◌else◌, ◌==◌,
}
use demo_class.BTree.Distinct.{has, IsDistinct}
use demo_class.BTree.{
  Node, Tree, nil, bnode, size, ptr, is_null, pre_order, in_order, post_order, pre_order_loop,
  pre_order_norecur, in_order_loop, in_order_norecur, post_order_loop, post_order_norecur,
}

-- `out` after `todo` was called on the nodes of `xs`
abbrev pub visit {ℓ} : {A : Type ℓ} → List (Node A) → List (Node A) → List (Node A)
visit [] out = out
visit (x ∷ xs) out = visit xs (x ∷ out)

module _ {ℓ} {A : Type ℓ} where
  pub visit-append : (xs ys out : List (Node A)) → visit (xs ++ ys) out ≡ visit ys (visit xs out)
  visit-append [] ys out = refl
  visit-append (x ∷ xs) ys out = visit-append xs ys (x ∷ out)

  visit-reverse_aux : (xs out : List (Node A)) → visit xs out ≡ reverse_aux xs out
  visit-reverse_aux [] out = refl
  visit-reverse_aux (x ∷ xs) out = visit-reverse_aux xs (x ∷ out)

  pub reverse-visit : (xs : List (Node A)) → reverse (visit xs []) ≡ xs
  reverse-visit xs =
      ap reverse (visit-reverse_aux xs [] ∙ reverse_aux-eq xs [] ∙ append-nil (reverse xs))
      ∙ reverse-reverse xs

  -- The loop works off a subtree and comes back to the stack that it began with.
  pre_order_loop-visit :
      (t : Tree A) (k f : ℕ) (stack : List (Tree A)) (out : List (Node A))
      → f ≡ 2 * size t + k
      → pre_order_loop f stack t out ≡ pre_order_loop k stack nil (visit (pre_order t) out)
  unfolding pre_order_loop size pre_order
  pre_order_loop-visit nil k f stack out e = let same : f ≡ k = omega arith in rw same
  pre_order_loop-visit (bnode l n r) k zero stack out e = absurd (omega arith)
  pre_order_loop-visit (bnode l n r) k (suc f) stack out e =
      pre_order_loop-visit l (suc (2 * size r + k)) f (bnode l n r ∷ stack) (n ∷ out) (omega arith)
      ∙ pre_order_loop-visit r k (2 * size r + k) stack (visit (pre_order l) (n ∷ out)) refl
      ∙ ap (pre_order_loop k stack nil) (sym (visit-append (pre_order l) (pre_order r) (n ∷ out)))

  -- The pre-order walk with a stack ends and visits the nodes in the order of the recursive walk.
  pub pre_order_norecur-eq : (t : Tree A) → pre_order_norecur t ≡ some (pre_order t)
  unfolding pre_order_norecur pre_order_loop
  pre_order_norecur-eq t =
      pre_order_loop-visit t 1 (2 * size t + 1) [] [] refl ∙ ap some (reverse-visit (pre_order t))

  in_order_loop-visit :
      (t : Tree A) (k f : ℕ) (stack : List (Tree A)) (out : List (Node A))
      → f ≡ 2 * size t + k
      → in_order_loop f stack t out ≡ in_order_loop k stack nil (visit (in_order t) out)
  unfolding in_order_loop size in_order
  in_order_loop-visit nil k f stack out e = let same : f ≡ k = omega arith in rw same
  in_order_loop-visit (bnode l n r) k zero stack out e = absurd (omega arith)
  in_order_loop-visit (bnode l n r) k (suc f) stack out e =
      in_order_loop-visit l (suc (2 * size r + k)) f (bnode l n r ∷ stack) out (omega arith)
      ∙ in_order_loop-visit r k (2 * size r + k) stack (n ∷ visit (in_order l) out) refl
      ∙ ap (in_order_loop k stack nil) (sym (visit-append (in_order l) (n ∷ in_order r) out))

  -- The in-order walk with a stack ends and visits the nodes in the order of the recursive walk.
  pub in_order_norecur-eq : (t : Tree A) → in_order_norecur t ≡ some (in_order t)
  unfolding in_order_norecur in_order_loop
  in_order_norecur-eq t =
      in_order_loop-visit t 1 (2 * size t + 1) [] [] refl ∙ ap some (reverse-visit (in_order t))

  -- `prev` after the walk of a subtree: its root, or what it was
  abbrev last : Tree A → ℕ → ℕ
  last nil prev = prev
  last (bnode l n r) prev = n.addr

  -- rounds for a subtree: each node is pushed, is popped, and may send the walk to its right
  rounds : Tree A → ℕ
  unfolding is_null
  rounds nil = 0
  rounds (bnode l n r) = suc (rounds l + (if is_null r then suc (rounds r) else 2 + rounds r))

  rounds-le : (t : Tree A) → rounds t ≤ 3 * size t
  unfolding rounds size
  rounds-le nil = omega arith
  rounds-le (bnode l n r) = ground (arith, rounds-le l, rounds-le r)

  has-last :
      (l r : Tree A) (prev : ℕ)
      → ((p : ℕ) → has p l ≡ true → has p r ≡ false)
      → has prev r ≡ false
      → has (last l prev) r ≡ false
  has-last nil r prev d h = h
  has-last (bnode l n r') r prev d h = d n.addr (ground arith)

  module _ (k : ℕ) (stack : List (Tree A)) (l rl rr : Tree A) (n m : Node A)
      (out : List (Node A)) where
    to_right :
        (prev : ℕ)
        → (m.addr == prev) ≡ false
        → post_order_loop (suc k) (bnode l n (bnode rl m rr) ∷ stack) nil prev out
          ≡ post_order_loop k (bnode l n (bnode rl m rr) ∷ stack) (bnode rl m rr) prev out
    unfolding post_order_loop is_null ptr
    to_right prev e = rw e

    back_up :
        post_order_loop (suc k) (bnode l n (bnode rl m rr) ∷ stack) nil m.addr out
        ≡ post_order_loop k stack nil n.addr (n ∷ out)
    unfolding post_order_loop is_null ptr
    back_up = let same : (m.addr == m.addr) ≡ true = ground arith in rw same

  post_order_loop-visit :
      (t : Tree A) (k f : ℕ) (stack : List (Tree A)) (prev : ℕ) (out : List (Node A))
      → IsDistinct t
      → has prev t ≡ false
      → f ≡ rounds t + k
      → post_order_loop f stack t prev out
        ≡ post_order_loop k stack nil (last t prev) (visit (post_order t) out)
  unfolding post_order_loop rounds post_order
  post_order_loop-visit nil k f stack prev out d fresh e = let same : f ≡ k = omega arith in rw same
  post_order_loop-visit (bnode l n r) k zero stack prev out d fresh e = absurd (omega arith)
  post_order_loop-visit (bnode l n nil) k (suc f) stack prev out d fresh e =
      post_order_loop-visit l (suc k) f (bnode l n nil ∷ stack) prev out d.4 (ground arith)
        (omega arith)
      ∙ ap (post_order_loop k stack nil n.addr) (sym (visit-append (post_order l) (n ∷ []) out))
  post_order_loop-visit (bnode l n (bnode rl m rr)) k (suc f) stack prev out d fresh e =
      let r = bnode rl m rr in
      let unseen : has (last l prev) r ≡ false = has-last l r prev d.1 (ground arith) in
      post_order_loop-visit l (suc (rounds r + suc k)) f (bnode l n r ∷ stack) prev out d.4
        (ground arith) (omega arith)
      ∙ to_right (rounds r + suc k) stack l rl rr n m (visit (post_order l) out) (last l prev)
          (ground arith)
      ∙ post_order_loop-visit (bnode rl m rr) (suc k) (rounds r + suc k) (bnode l n r ∷ stack)
          (last l prev) (visit (post_order l) out) d.5 unseen refl
      ∙ back_up k stack l rl rr n m (visit (post_order r) (visit (post_order l) out))
      ∙ ap (post_order_loop k stack nil n.addr) (
          sym (
            visit-append (post_order l) (post_order r ++ n ∷ []) out
            ∙ visit-append (post_order r) (n ∷ []) (visit (post_order l) out)))

  not_null : (t : Tree A) → IsDistinct t → has 0 t ≡ false
  not_null nil d = refl
  not_null (bnode l n r) d = ground (arith, not_null l d.4, not_null r d.5)

  last_round :
      (k : ℕ) (prev : ℕ) (out : List (Node A))
      → 0 < k
      → post_order_loop k [] nil prev out ≡ some (reverse out)
  unfolding post_order_loop
  last_round zero prev out h = absurd (omega arith)
  last_round (suc k) prev out h = refl

  -- The post-order walk with a stack ends and visits the nodes in the order of the recursive walk,
  -- where the nodes lie at different addresses, none of them NULL.
  pub post_order_norecur-eq :
      (t : Tree A) → IsDistinct t → post_order_norecur t ≡ some (post_order t)
  unfolding post_order_norecur
  post_order_norecur-eq t d =
      post_order_loop-visit t (3 * size t + 1 - rounds t) (3 * size t + 1) [] 0 [] d (not_null t d)
        (omega (arith, rounds-le t))
      ∙ last_round _ (last t 0) _ (omega (arith, rounds-le t))
      ∙ ap some (reverse-visit (post_order t))
