-- ===== src/ListSort/Tests.antt =====
-- The list 7, 8, 9 behind the head 100, whose links hold their addresses.
use Prim.Native.Nat.{compare}
use demo_class.Common.{ℕ, List, length, arith, ◌≡◌, refl, some, [], ◌∷◌, ◌==◌, ◌>>=◌, if◌then◌else◌}
use demo_class.Common.Order.{flip, compare-IsOrder}
use demo_class.Links.{Links, list_for_each}
use demo_class.Links.Ring.{Ring}
use demo_class.ListSort.{bubble_sort, select_sort, insert_sort}
use demo_class.Links.Seg.{has}
use demo_class.ListSort.Ordered.{IsRising, insert_sort-IsRising}

abbrev links : Links
links = record {
  next = λ p. if p == 100 then 7 else if p == 7 then 8 else if p == 8 then 9 else 100;
  prev = λ p. if p == 100 then 9 else if p == 9 then 8 else if p == 8 then 7 else 100;
}

links-Ring : Ring links 100 (7 ∷ 8 ∷ 9 ∷ [])
links-Ring = record {
  distinct = (refl, (refl, (refl, (refl, tt))));
  linked = ((refl, refl), ((refl, refl), ((refl, refl), ((refl, refl), tt))));
}

-- sorted downwards
bubble_run :
    (bubble_sort (λ a b. flip (compare a b)) 50 9 100 links >>= list_for_each 9 100)
    ≡ some (9 ∷ 8 ∷ 7 ∷ [])
unfolding bubble_sort list_for_each
bubble_run = refl

select_run :
    (select_sort (λ a b. flip (compare a b)) 50 9 100 links >>= list_for_each 9 100)
    ≡ some (9 ∷ 8 ∷ 7 ∷ [])
unfolding select_sort list_for_each
select_run = refl

insert_run :
    (insert_sort (λ a b. flip (compare a b)) 9 100 links >>= list_for_each 9 100)
    ≡ some (9 ∷ 8 ∷ 7 ∷ [])
unfolding insert_sort list_for_each
insert_run = refl

insert_sort-IsRising_example :
    (m' : Links) × (ys : List ℕ) × (insert_sort compare 9 100 links ≡ some m')
    × Ring m' 100 ys
    × IsRising compare ys
    × (length ys ≡ 3)
    × ((p : ℕ) → has p ys ≡ has p (7 ∷ 8 ∷ 9 ∷ []))
insert_sort-IsRising_example =
    insert_sort-IsRising compare compare-IsOrder links 100 9 (7 ∷ 8 ∷ 9 ∷ []) (omega arith)
      links-Ring
