-- ===== src/Sort/Quick.antt =====
-- `quick_sort` of an array.
use demo_class.Common.{
  ℕ, zero, suc, ◌+◌, ◌-◌, ◌<◌, ◌≡◌, refl, inl, inr, some, Ordering, arith, Bool-cases, ltb,
}
use mathlib.Core.Path.{subst}
use demo_class.Common.Order.{IsOrder, is_le}
use demo_class.Sort.{Array, view, splice, quick_sort_rec, quick_sort}
use demo_class.Sort.Elements.{
  Le, SortOf, IsSorted, Permuted, Permuted-refl, Permuted-trans, Permuted-widen, Permuted-view,
  Permuted-all, Permuted-ext, view-splice,
}
use demo_class.Sort.Partition.{Parted, whole-Parted}

module _ {ℓ} {A : Type ℓ} (cmp : A → A → Ordering) (o : IsOrder cmp) where
  -- the two sides of the pivot in order, one after the other
  module _ (n l : ℕ) (a b c d : Array A) (parted : Parted cmp n a l b) (left : SortOf cmp l c b)
      (right : SortOf cmp (n - l - 1) d (view (l + 1) c)) where
    abbrev whole : Array A
    whole = splice (l + 1) d c

    -- the elements behind the pivot, as `__quick_sort` found them
    right-high : (i : ℕ) → i < n - l - 1 → Le cmp (b l) (d i)
    right-high =
        Permuted-all (λ x. is_le (cmp (b l) x)) (n - l - 1) d (view (l + 1) c) right.1
          (λ i h.
            rw (left.1.others (l + 1 + i) (omega arith))
              (parted.high (l + 1 + i) (omega arith) (omega arith)))

    left-low : (i : ℕ) → i < l → Le cmp (c i) (b l)
    left-low = Permuted-all (λ x. is_le (cmp x (b l))) l c b left.1 parted.low

    pivot : c l ≡ b l
    pivot = left.1.others l (omega arith)

    whole-IsSorted : IsSorted cmp n whole
    whole-IsSorted i j h k = ground (
      arith,
      left.0 i j,
      right.0 (i - (l + 1)) (j - (l + 1)),
      right-high (j - (l + 1)),
      left-low i,
      pivot,
      o.trans (c i) (b l) (d (j - (l + 1))),
    )

    whole-Permuted : Permuted n whole a
    whole-Permuted =
        let behind : l + 1 + (n - l - 1) ≡ n = omega (arith, parted.inside) in
        let moved : Permuted (l + 1 + (n - l - 1)) whole c =
          Permuted-view (l + 1) (n - l - 1) whole c (λ i h. ground arith)
            (Permuted-trans
              (Permuted-ext (n - l - 1) (view (l + 1) whole) d (view-splice (l + 1) d c))
              right.1) in
        Permuted-trans (subst (λ m. Permuted m whole c) behind moved)
          (Permuted-trans (Permuted-widen (omega (arith, parted.inside)) left.1) parted.perm)

  quick_sort_rec-SortOf :
      (k n : ℕ) (a : Array A)
      → n < k
      → (b : Array A) × (quick_sort_rec cmp k n a ≡ some b) × SortOf cmp n b a
  unfolding quick_sort_rec
  quick_sort_rec-SortOf zero n a h = ground arith
  quick_sort_rec-SortOf (suc k) n a h = elim (Bool-cases (ltb n 2)) [
    | inl e ↦ rw e (a, refl, (λ i j l m. ground arith, Permuted-refl n a))
    | inr e ↦
        let (r, cut, parted) = whole-Parted cmp o n a (ground arith) in
        let (c, first, left) = quick_sort_rec-SortOf k r.0 r.1 (omega (arith, parted.inside)) in
        let (d, second, right) =
          quick_sort_rec-SortOf k (n - r.0 - 1) (view (r.0 + 1) c) (omega arith) in
        rw (e, cut, first, second)
          (
            splice (r.0 + 1) d c,
            refl,
            (
              whole-IsSorted n r.0 a r.1 c d parted left right,
              whole-Permuted n r.0 a r.1 c d parted left right,
            ),
          )
  ]

  -- With a `cmp` that is an order, `quick_sort` ends, puts the elements in order, keeps each of
  -- them as often as it is there, and touches nothing behind them.
  pub quick_sort-SortOf :
      (nmemb : ℕ) (a : Array A)
      → (b : Array A) × (quick_sort cmp nmemb a ≡ some b) × SortOf cmp nmemb b a
  unfolding quick_sort
  quick_sort-SortOf n a = quick_sort_rec-SortOf (n + 1) n a (omega arith)
