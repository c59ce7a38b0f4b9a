-- ===== src/BTree/Tests.antt =====
-- Theorems about the tree at a concrete one.
use Prim.Native.Nat.{compare}
use demo_class.Common.{ℕ, ◌≡◌, refl, none, some, [], ◌∷◌}
use demo_class.Common.Order.{compare-IsOrder}
use demo_class.BTree.{Node, Tree, nil, bnode, in_order, push, find, level_order, get_depth}
use demo_class.BTree.Search.{IsBst, insert, push-IsBst, in_order-push, find-push, or_new}
use demo_class.BTree.Levels.{rows, level_order-rows}

abbrev node : ℕ → ℕ → Node ℕ
node p k = record { addr = p; item = k }

abbrev leaf : Node ℕ → Tree ℕ
leaf n = bnode nil n nil

-- 5 over 2 and 8, 5 below 8
abbrev sample : Tree ℕ
sample = bnode (leaf (node 20 2)) (node 10 5) (bnode (leaf (node 40 5)) (node 30 8) nil)

sample-IsBst : IsBst compare sample
sample-IsBst = (
  (tt, refl, tt),
  ((tt, refl, tt), refl, tt),
  (tt, tt, tt, tt),
  ((tt, refl, tt), tt, (tt, tt, tt, tt), tt),
)

push-IsBst_example : IsBst compare (push compare sample (node 50 6))
push-IsBst_example = push-IsBst compare sample (node 50 6) sample-IsBst

in_order-push_example :
    in_order (push compare sample (node 50 5)) ≡ insert compare (node 50 5) (in_order sample)
in_order-push_example = in_order-push compare compare-IsOrder sample (node 50 5) sample-IsBst

find-push_example :
    find compare (push compare sample (node 50 6)) 6
    ≡ or_new compare 6 (node 50 6) (find compare sample 6)
find-push_example = find-push compare compare-IsOrder sample (node 50 6) 6

level_order-rows_example : level_order sample ≡ some (rows sample 0 (get_depth sample))
level_order-rows_example =
    level_order-rows (leaf (node 20 2)) (bnode (leaf (node 40 5)) (node 30 8) nil) (node 10 5)

-- the walk on a real tree, row by row
rows_run : rows sample 0 3 ≡ node 10 5 ∷ node 20 2 ∷ node 30 8 ∷ node 40 5 ∷ []
rows_run = refl

-- with the root NULL the first round of the walk would read through it
level_order_empty : level_order {A = ℕ} nil ≡ none
unfolding level_order
level_order_empty = refl
