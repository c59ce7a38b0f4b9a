-- ===== src/Sort/Insert.antt =====
-- `insert_sort` of an array.
use demo_class.Common.{
  ℕ, zero, suc, ◌+◌, ◌-◌, ◌≤◌, ◌<◌, ◌≡◌, ◌≢◌, sym, inl, inr, Ordering, arith, if◌then◌else◌,
  Bool-cases,
}
use demo_class.Common.Order.{IsOrder, is_gt, is_ge}
use demo_class.Sort.{Array, write, insert_shift, insert_loop, insert_sort}
use demo_class.Sort.Elements.{
  Le, SortOf, IsSorted, Permuted, Permuted-refl, Permuted-trans, Permuted-ext, move-Permuted,
}

module _ {ℓ} {A : Type ℓ} (cmp : A → A → Ordering) where
  insert_shift-Permuted :
      (p n : ℕ) (buf : A) (a : Array A)
      → p < n
      → Permuted n (insert_shift cmp p buf a) (write p buf a)
  unfolding insert_shift
  insert_shift-Permuted zero n buf a h = Permuted-refl n (write 0 buf a)
  insert_shift-Permuted (suc j) n buf a h = elim (Bool-cases (is_gt (cmp (a j) buf))) [
    | inl e ↦ rw e (
        Permuted-trans (insert_shift-Permuted j n buf (write (suc j) (a j) a) (omega arith))
          (move-Permuted n j (suc j) buf a (omega arith) (omega arith) h))
    | inr e ↦ rw e (Permuted-refl n (write (suc j) buf a))
  ]

  pub write-same : (n i : ℕ) (a : Array A) → Permuted n (write i (a i) a) a
  write-same n i a = Permuted-ext n (write i (a i) a) a (λ q. ground arith)

  -- `a` is in order up to `i` but for a gap at `p`, and `buf` belongs there or further left
  record HasGap (p i : ℕ) (buf : A) (a : Array A) : Type 0 where
    ordered : (x y : ℕ) → x < y → y ≤ i → x ≢ p → y ≢ p → Le cmp (a x) (a y)
    above : (y : ℕ) → p < y → y ≤ i → Le cmp buf (a y)

  module _ (o : IsOrder cmp) where
    insert_shift-IsSorted :
        (p i : ℕ) (buf : A) (a : Array A)
        → p ≤ i
        → HasGap p i buf a
        → IsSorted cmp (suc i) (insert_shift cmp p buf a)
    unfolding insert_shift
    insert_shift-IsSorted zero i buf a h gap =
        λ x y l k. ground (arith, gap.ordered x y, gap.above y)
    insert_shift-IsSorted (suc j) i buf a h gap = elim (Bool-cases (is_gt (cmp (a j) buf))) [
      | inl e ↦ rw e (
          insert_shift-IsSorted j i buf (write (suc j) (a j) a) (omega arith) (record {
            ordered =
                λ x y l k nx ny. ground (arith, gap.ordered x y, gap.ordered x j, gap.ordered j y);
            above = λ y l k. ground (arith, gap.above y, o.flips (a j) buf);
          }))
      | inr e ↦ rw e (λ x y l k.
          ground (arith, gap.ordered x y, gap.ordered x j, gap.above y, o.trans (a x) (a j) buf))
    ]

    -- one round of the outer loop: the element behind the first `j + 1` joins them
    abbrev insert_round : ℕ → Array A → Array A
    insert_round j a =
        if is_ge (cmp (a (suc j)) (a j)) then a else insert_shift cmp (suc j) (a (suc j)) a

    insert_round-Permuted : (j n : ℕ) (a : Array A) → suc j < n → Permuted n (insert_round j a) a
    insert_round-Permuted j n a h = elim (Bool-cases (is_ge (cmp (a (suc j)) (a j)))) [
      | inl e ↦ rw e (Permuted-refl n a)
      | inr e ↦ rw e (
          Permuted-trans (insert_shift-Permuted (suc j) n (a (suc j)) a h) (write-same n (suc j) a))
    ]

    insert_round-IsSorted :
        (j : ℕ) (a : Array A)
        → IsSorted cmp (suc j) a
        → IsSorted cmp (suc (suc j)) (insert_round j a)
    insert_round-IsSorted j a sorted = elim (Bool-cases (is_ge (cmp (a (suc j)) (a j)))) [
      | inl e ↦ rw e (λ x y l k.
          ground
            (arith, sorted x y, sorted x j, o.flips (a (suc j)) (a j), o.trans (a x) (a j) (a y)))
      | inr e ↦ rw e (
          insert_shift-IsSorted (suc j) (suc j) (a (suc j)) a (omega arith) (record {
            ordered = λ x y l k nx ny. sorted x y l (omega arith);
            above = λ y l k. ground arith;
          }))
    ]

    insert_loop-SortOf :
        (k j n : ℕ) (a : Array A)
        → suc j + k ≡ n
        → IsSorted cmp (suc j) a
        → SortOf cmp n (insert_loop cmp k j a) a
    unfolding insert_loop
    insert_loop-SortOf zero j n a e sorted =
        let same : suc j ≡ n = omega arith in rw (sym same) (sorted, Permuted-refl (suc j) a)
    insert_loop-SortOf (suc k) j n a e sorted =
        let (done, perm) =
          insert_loop-SortOf k (suc j) n (insert_round j a) (omega arith)
            (insert_round-IsSorted j a sorted) in
        (done, Permuted-trans perm (insert_round-Permuted j n a (omega arith)))

    -- With a `cmp` that is an order, `insert_sort` puts the elements in order, keeps each of them
    -- as often as it is there, and touches nothing behind them.
    pub insert_sort-SortOf :
        (nmemb : ℕ) (a : Array A) → SortOf cmp nmemb (insert_sort cmp nmemb a) a
    unfolding insert_sort insert_loop
    insert_sort-SortOf zero a = (λ i j h l. ground arith, Permuted-refl 0 a)
    insert_sort-SortOf (suc n) a =
        let same : suc n - 1 ≡ n = omega arith in
        rw same (insert_loop-SortOf n 0 (suc n) a (omega arith) (λ i j h l. ground arith))
