-- ===== src/BTree/Levels.antt =====
-- btree.c: `btree_level_order` against the rows of the tree.
use demo_class.Common.{
  ℕ, zero, suc, ◌+◌, ◌≤◌, ◌≡◌, refl, some, List, [], ◌∷◌, ◌++◌, arith, ◌∙◌, sym, ap, length,
  append_assoc, append-nil, reverse,
}
use demo_class.BTree.{
  Node, Tree, nil, bnode, size, get_depth, enqueue, level_order_loop, level_order,
}
use demo_class.BTree.Loops.{visit, visit-append, reverse-visit}

module _ {ℓ} {A : Type ℓ} where
  -- the nodes `k` steps below the root, from left to right
  abbrev pub row : Tree A → ℕ → List (Node A)
  row nil k = []
  row (bnode l n r) zero = n ∷ []
  row (bnode l n r) (suc k) = row l k ++ row r k

  -- `d` rows, from row `k` on
  abbrev pub rows : Tree A → ℕ → ℕ → List (Node A)
  rows t k zero = []
  rows t k (suc d) = row t k ++ rows t (suc k) d

  abbrev row_all : List (Tree A) → ℕ → List (Node A)
  row_all [] k = []
  row_all (t ∷ ts) k = row t k ++ row_all ts k

  abbrev rows_all : List (Tree A) → ℕ → ℕ → List (Node A)
  rows_all ts k zero = []
  rows_all ts k (suc d) = row_all ts k ++ rows_all ts (suc k) d

  -- the children that a round puts into the queue
  abbrev child : Tree A → List (Tree A)
  child nil = []
  child (bnode l n r) = bnode l n r ∷ []

  abbrev children : List (Tree A) → List (Tree A)
  children [] = []
  children (nil ∷ ts) = children ts
  children (bnode l n r ∷ ts) = (child l ++ child r) ++ children ts

  abbrev NonNull : List (Tree A) → Type 0
  NonNull [] = Unit
  NonNull (nil ∷ ts) = ⊥
  NonNull (bnode l n r ∷ ts) = NonNull ts

  abbrev size_all : List (Tree A) → ℕ
  size_all [] = 0
  size_all (t ∷ ts) = size t + size_all ts

  abbrev DepthWithin : ℕ → List (Tree A) → Type 0
  DepthWithin d [] = Unit
  DepthWithin d (t ∷ ts) = (get_depth t ≤ d) × DepthWithin d ts

  enqueue-child : (q : List (Tree A)) (t : Tree A) → enqueue q t ≡ q ++ child t
  unfolding enqueue
  enqueue-child q nil = sym (append-nil q)
  enqueue-child q (bnode l n r) = refl

  row_all-append :
      (xs ys : List (Tree A)) (k : ℕ) → row_all (xs ++ ys) k ≡ row_all xs k ++ row_all ys k
  row_all-append [] ys k = refl
  row_all-append (x ∷ xs) ys k = simp (row_all-append xs ys k, append_assoc)

  row_all-child : (t : Tree A) (k : ℕ) → row_all (child t) k ≡ row t k
  row_all-child nil k = refl
  row_all-child (bnode l n r) k = append-nil _

  row_all-children : (ts : List (Tree A)) (k : ℕ) → row_all (children ts) k ≡ row_all ts (suc k)
  row_all-children [] k = refl
  row_all-children (nil ∷ ts) k = row_all-children ts k
  row_all-children (bnode l n r ∷ ts) k =
      simp (row_all-append, row_all-child, row_all-children ts k, append_assoc)

  rows_all-children :
      (ts : List (Tree A)) (d k : ℕ) → rows_all (children ts) k d ≡ rows_all ts (suc k) d
  rows_all-children ts zero k = refl
  rows_all-children ts (suc d) k = rw (row_all-children ts k, rows_all-children ts d (suc k))

  NonNull-append : (xs ys : List (Tree A)) → NonNull xs → NonNull ys → NonNull (xs ++ ys)
  NonNull-append [] ys h k = k
  NonNull-append (nil ∷ xs) ys h k = absurd h
  NonNull-append (bnode l n r ∷ xs) ys h k = NonNull-append xs ys h k

  NonNull-child : (t : Tree A) → NonNull (child t)
  NonNull-child nil = tt
  NonNull-child (bnode l n r) = tt

  NonNull-children : (ts : List (Tree A)) → NonNull (children ts)
  NonNull-children [] = tt
  NonNull-children (nil ∷ ts) = NonNull-children ts
  NonNull-children (bnode l n r ∷ ts) =
      NonNull-append (child l ++ child r) (children ts)
        (NonNull-append (child l) (child r) (NonNull-child l) (NonNull-child r))
        (NonNull-children ts)

  size_all-append : (xs ys : List (Tree A)) → size_all (xs ++ ys) ≡ size_all xs + size_all ys
  size_all-append [] ys = omega arith
  size_all-append (x ∷ xs) ys = omega (arith, size_all-append xs ys)

  size_all-child : (t : Tree A) → size_all (child t) ≡ size t
  unfolding size
  size_all-child nil = refl
  size_all-child (bnode l n r) = omega arith

  size_all-children :
      (ts : List (Tree A)) → NonNull ts → size_all ts ≡ length ts + size_all (children ts)
  unfolding size
  size_all-children [] h = refl
  size_all-children (nil ∷ ts) h = absurd h
  size_all-children (bnode l n r ∷ ts) h = omega (
    arith,
    size_all-children ts h,
    size_all-append (child l ++ child r) (children ts),
    size_all-append (child l) (child r),
    size_all-child l,
    size_all-child r,
  )

  DepthWithin-append :
      (d : ℕ) (xs ys : List (Tree A))
      → DepthWithin d xs
      → DepthWithin d ys
      → DepthWithin d (xs ++ ys)
  DepthWithin-append d [] ys h k = k
  DepthWithin-append d (x ∷ xs) ys h k = (h.0, DepthWithin-append d xs ys h.1 k)

  DepthWithin-child : (d : ℕ) (t : Tree A) → get_depth t ≤ d → DepthWithin d (child t)
  DepthWithin-child d nil h = tt
  DepthWithin-child d (bnode l n r) h = (h, tt)

  get_depth-node :
      (d : ℕ) (l r : Tree A) (n : Node A)
      → get_depth (bnode l n r) ≤ suc d
      → (get_depth l ≤ d) × (get_depth r ≤ d)
  unfolding get_depth
  get_depth-node d l r n h = ground arith

  DepthWithin-children :
      (d : ℕ) (ts : List (Tree A)) → DepthWithin (suc d) ts → DepthWithin d (children ts)
  DepthWithin-children d [] h = tt
  DepthWithin-children d (nil ∷ ts) h = DepthWithin-children d ts h.1
  DepthWithin-children d (bnode l n r ∷ ts) h =
      let (hl, hr) = get_depth-node d l r n h.0 in
      DepthWithin-append d (child l ++ child r) (children ts)
        (DepthWithin-append d (child l) (child r) (DepthWithin-child d l hl)
          (DepthWithin-child d r hr))
        (DepthWithin-children d ts h.1)

  -- One pass over a queue visits its roots and leaves their children, in order.
  one_pass :
      (q c : List (Tree A)) (k f : ℕ) (out : List (Node A))
      → NonNull q
      → f ≡ length q + k
      → level_order_loop f (q ++ c) out
        ≡ level_order_loop k (c ++ children q) (visit (row_all q 0) out)
  unfolding level_order_loop
  one_pass [] c k f out h e = let same : f ≡ k = omega arith in rw (same, append-nil)
  one_pass (nil ∷ q) c k f out h e = absurd h
  one_pass (bnode l n r ∷ q) c k zero out h e = absurd (omega arith)
  one_pass (bnode l n r ∷ q) c k (suc f) out h e =
      simp (enqueue-child, append_assoc)
        (simp append_assoc at
          (one_pass q ((c ++ child l) ++ child r) k f (n ∷ out) h (omega arith)))

  level_order_loop-rows :
      (d f : ℕ) (q : List (Tree A)) (out : List (Node A))
      → NonNull q
      → DepthWithin d q
      → f ≡ size_all q + 1
      → level_order_loop f q out ≡ level_order_loop 1 [] (visit (rows_all q 0 d) out)
  unfolding get_depth
  level_order_loop-rows zero f [] out h w e = let same : f ≡ 1 = omega arith in rw same
  level_order_loop-rows zero f (nil ∷ q) out h w e = absurd h
  level_order_loop-rows zero f (bnode l n r ∷ q) out h w e = absurd (ground arith)
  level_order_loop-rows (suc d) f q out h w e =
      ap (λ (ts : List (Tree A)). level_order_loop f ts out) (sym (append-nil q))
      ∙ one_pass q [] (size_all (children q) + 1) f out h (omega (arith, size_all-children q h))
      ∙ level_order_loop-rows d (size_all (children q) + 1) (children q) (visit (row_all q 0) out)
          (NonNull-children q) (DepthWithin-children d q w) refl
      ∙ ap (λ (ns : List (Node A)). level_order_loop 1 [] (visit ns (visit (row_all q 0) out)))
          (rows_all-children q d 0)
      ∙ ap (level_order_loop 1 []) (sym (visit-append (row_all q 0) (rows_all q 1 d) out))

  rows_all-single : (t : Tree A) (k d : ℕ) → rows_all (t ∷ []) k d ≡ rows t k d
  rows_all-single t k zero = refl
  rows_all-single t k (suc d) = simp (rows_all-single t (suc k) d, append-nil)

  -- On a tree that is not empty the walk with a queue ends, and visits the tree row by row, each
  -- row from left to right, as many rows as the tree is deep.
  pub level_order-rows :
      (l r : Tree A) (n : Node A)
      → level_order (bnode l n r) ≡ some (rows (bnode l n r) 0 (get_depth (bnode l n r)))
  unfolding level_order
  level_order-rows l r n =
      let t = bnode l n r in
      level_order_loop-rows (get_depth t) (size t + 1) (t ∷ []) [] tt (omega arith, tt)
        (omega arith)
      ∙ last_round (visit (rows_all (t ∷ []) 0 (get_depth t)) [])
      ∙ ap some (reverse-visit _ ∙ rows_all-single t 0 (get_depth t))
    where
      last_round : (out : List (Node A)) → level_order_loop 1 [] out ≡ some (reverse out)
      last_round out = refl
