-- ===== src/Sort/MergeSort.antt =====
-- `merge_sort` of an array.
use mathlib.Core.Path.{subst}
use demo_class.Common.{
  lt_or_ge, ℕ, zero, suc, ◌+◌, ◌-◌, ◌/◌, ◌≤◌, ◌<◌, ◌≡◌, refl, ◌∙◌, true, false, inl, inr, some,
  Ordering, arith, leb,
}
use demo_class.Common.Order.{IsOrder}
use demo_class.Sort.{Array, view, splice, copy, merge, merge_sort_rec, merge_sort}
use demo_class.Sort.Elements.{
  Le, SortOf, IsSorted, Permuted, Permuted-refl, Permuted-trans, Permuted-widen, Permuted-view,
  Permuted-ext, view-splice, count-below,
}
use demo_class.Sort.Merge.{view-copy, merge_loop-start}

module _ {ℓ} {A : Type ℓ} (cmp : A → A → Ordering) (o : IsOrder cmp) where
  copy-whole : (n : ℕ) (a b : Array A) (i : ℕ) → i < n → copy n 0 0 b a i ≡ b i
  copy-whole n a b i h =
      let same : 0 + i ≡ i = omega arith in
      subst (λ q. copy n 0 0 b a q ≡ b q) same (view-copy n 0 0 b a i h)

  second_half :
      (n : ℕ) (a : Array A)
      → IsSorted cmp (n - n / 2) (view (n / 2) a)
      → (x y : ℕ) → n / 2 ≤ x
      → x < y
      → y < n
      → Le cmp (a x) (a y)
  second_half n a sorted x y h l k =
      let at_x : n / 2 + (x - n / 2) ≡ x = omega arith in
      let at_y : n / 2 + (y - n / 2) ≡ y = omega arith in
      subst (λ q. Le cmp (a q) (a y)) at_x
        (subst (λ q. Le cmp (a (n / 2 + (x - n / 2))) (a q)) at_y
          (sorted (x - n / 2) (y - n / 2) (omega arith) (omega arith)))

  left-IsSorted : (m : ℕ) (d c : Array A) → IsSorted cmp m c → IsSorted cmp m (splice m d c)
  left-IsSorted m d c sorted i j h k = ground (arith, sorted i j)

  right-IsSorted :
      (m k : ℕ) (d c : Array A) → IsSorted cmp k d → IsSorted cmp k (view m (splice m d c))
  right-IsSorted m k d c sorted i j h l =
      rw (view-splice m d c i, view-splice m d c j) (sorted i j h l)

  halves-Permuted :
      (n : ℕ) (a c d : Array A)
      → Permuted (n / 2) c a
      → Permuted (n - n / 2) d (view (n / 2) c)
      → Permuted n (splice (n / 2) d c) a
  halves-Permuted n a c d left right =
      let whole = splice (n / 2) d c in
      let behind : n / 2 + (n - n / 2) ≡ n = omega arith in
      Permuted-trans
        (subst (λ m. Permuted m whole c) behind
          (Permuted-view (n / 2) (n - n / 2) whole c (λ i h. ground arith)
            (Permuted-trans
              (Permuted-ext (n - n / 2) (view (n / 2) whole) d (view-splice (n / 2) d c)) right)))
        (Permuted-widen (omega arith) left)

  -- the merge of two halves in order
  merge-SortOf :
      (n : ℕ) (a buf : Array A)
      → IsSorted cmp (n / 2) a
      → IsSorted cmp (n - n / 2) (view (n / 2) a)
      → (r : Array A × Array A) × (merge cmp n a buf ≡ some r) × SortOf cmp n r.0 a
  unfolding merge
  merge-SortOf n a buf first second =
      let (b, e, (ordered, counts)) =
        merge_loop-start cmp o (n / 2) n a first (second_half n a second) buf (omega arith) in
      let back = copy n 0 0 b a in
      let same : (i : ℕ) → i < n → back i ≡ b i = λ i h. copy-whole n a b i h in
      rw e (
        (back, b),
        refl,
        (
          λ i j h k. rw (same i (omega arith), same j k) (ordered i j h k),
          record {
            counts = λ p. count-below p n back b same ∙ counts p;
            others = λ i h. ground arith;
          },
        ),
      )

  merge_sort_rec-SortOf :
      (k n : ℕ) (a buf : Array A)
      → n < k
      → (r : Array A × Array A) × (merge_sort_rec cmp k n a buf ≡ some r) × SortOf cmp n r.0 a
  unfolding merge_sort_rec
  merge_sort_rec-SortOf zero n a buf h = ground arith
  merge_sort_rec-SortOf (suc k) n a buf h = elim (lt_or_ge n 2) [
    | inl few ↦
        let small : leb n 1 ≡ true = ground arith in
        rw small ((a, buf), refl, (λ i j l m. ground arith, Permuted-refl n a))
    | inr many ↦
        let big : leb n 1 ≡ false = ground arith in
        let (s, one, left) = merge_sort_rec-SortOf k (n / 2) a buf (omega arith) in
        let (t, two, right) =
          merge_sort_rec-SortOf k (n - n / 2) (view (n / 2) s.0) s.1 (omega arith) in
        let both = splice (n / 2) t.0 s.0 in
        let (r, merged, whole) =
          merge-SortOf n both t.1 (left-IsSorted (n / 2) t.0 s.0 left.0)
            (right-IsSorted (n / 2) (n - n / 2) t.0 s.0 right.0) in
        rw (big, one, two)
          (
            r,
            merged,
            (whole.0, Permuted-trans whole.1 (halves-Permuted n a s.0 t.0 left.1 right.1)),
          )
  ]

  -- With a `cmp` that is an order, `merge_sort` ends, puts the elements in order, keeps each of
  -- them as often as it is there, and touches nothing behind them, whatever the buffer holds.
  pub merge_sort-SortOf :
      (nmemb : ℕ) (a buf : Array A)
      → (b : Array A) × (merge_sort cmp nmemb a buf ≡ some b) × SortOf cmp nmemb b a
  unfolding merge_sort
  merge_sort-SortOf n a buf =
      let (r, e, sorted) = merge_sort_rec-SortOf (n + 1) n a buf (omega arith) in
      rw e (r.0, refl, sorted)
