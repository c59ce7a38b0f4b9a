-- ===== src/Sort/Tests.antt =====
-- The sorts at a concrete array.
use Prim.Native.Nat.{compare}
use demo_class.Common.{ℕ, ◌≡◌, refl, List, [], ◌∷◌, some, suc, zero}
use demo_class.Common.Order.{compare-IsOrder}
use demo_class.Sort.{Array, bubble_sort, select_sort, shell_sort, quick_sort, merge_sort}
use demo_class.Sort.Elements.{SortOf}
use demo_class.Sort.Quick.{quick_sort-SortOf}
use demo_class.Sort.MergeSort.{merge_sort-SortOf}

abbrev array : List ℕ → Array ℕ
array [] i = 0
array (x ∷ xs) zero = x
array (x ∷ xs) (suc i) = array xs i

-- the ages that the program sorts
abbrev ages : Array ℕ
ages = array (3 ∷ 2 ∷ 7 ∷ 7 ∷ 4 ∷ 5 ∷ 1 ∷ 6 ∷ [])

bubble_run : bubble_sort compare 8 ages 3 ≡ 4
unfolding bubble_sort
bubble_run = refl

select_run : select_sort compare 8 ages 3 ≡ 4
unfolding select_sort
select_run = refl

shell_run : shell_sort compare 8 ages 0 ≡ 1
unfolding shell_sort
shell_run = refl

quick_sort-SortOf_example :
    (b : Array ℕ) × (quick_sort compare 8 ages ≡ some b) × SortOf compare 8 b ages
quick_sort-SortOf_example = quick_sort-SortOf compare compare-IsOrder 8 ages

merge_sort-SortOf_example :
    (b : Array ℕ) × (merge_sort compare 8 ages (array []) ≡ some b) × SortOf compare 8 b ages
merge_sort-SortOf_example = merge_sort-SortOf compare compare-IsOrder 8 ages (array [])
