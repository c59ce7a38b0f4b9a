-- ===== src/Sort/Bubble.antt =====
-- `bubble_sort` of an array.
use demo_class.Common.{
  lt_or_eq, lt_or_ge, ℕ, zero, suc, ◌+◌, ◌-◌, ◌≤◌, ◌<◌, ◌≡◌, sym, inl, inr, Ordering, arith,
  if◌then◌else◌, Bool-cases,
}
use demo_class.Common.Order.{IsOrder, is_le, is_gt}
use demo_class.Sort.{Array, swap, bubble_pass, bubble_loop, bubble_sort}
use demo_class.Sort.Elements.{
  Le, SortOf, Permuted, Permuted-refl, Permuted-trans, swap-Permuted, Permuted-all, Permuted-widen,
}

module _ {ℓ} {A : Type ℓ} (cmp : A → A → Ordering) where
  -- the elements before the last of the first `n` are not above it
  abbrev IsTop : ℕ → Array A → Type 0
  IsTop n a = (i : ℕ) → i ≤ n → Le cmp (a i) (a n)

  -- one round of the inner loop
  abbrev order_pair : ℕ → Array A → Array A
  order_pair s a = if is_gt (cmp (a s) (a (suc s))) then swap s (suc s) a else a

  order_pair-Permuted : (n s : ℕ) (a : Array A) → suc s < n → Permuted n (order_pair s a) a
  order_pair-Permuted n s a h = elim (Bool-cases (is_gt (cmp (a s) (a (suc s))))) [
    | inl e ↦ rw e (swap-Permuted n s (suc s) a (omega arith) h)
    | inr e ↦ rw e (Permuted-refl n a)
  ]

  bubble_pass-Permuted :
      (k s n : ℕ) (a : Array A) → s + k < n → Permuted n (bubble_pass cmp k s a) a
  unfolding bubble_pass
  bubble_pass-Permuted zero s n a h = Permuted-refl n a
  bubble_pass-Permuted (suc k) s n a h =
      Permuted-trans (bubble_pass-Permuted k (suc s) n (order_pair s a) (omega arith))
        (order_pair-Permuted n s a (omega arith))

  module _ (o : IsOrder cmp) where
    order_pair-IsTop : (s : ℕ) (a : Array A) → IsTop s a → IsTop (suc s) (order_pair s a)
    unfolding swap
    order_pair-IsTop s a top i h = ground (
      arith,
      top i,
      o.flips (a s) (a (suc s)),
      o.flips (a s) (a s),
      o.flips (a (suc s)) (a (suc s)),
      o.trans (a i) (a s) (a (suc s)),
    )

    first-IsTop : (a : Array A) → IsTop 0 a
    first-IsTop a i h = ground (arith, o.flips (a 0) (a 0))

    bubble_pass-IsTop :
        (k s e : ℕ) (a : Array A) → s + k ≡ e → IsTop s a → IsTop e (bubble_pass cmp k s a)
    unfolding bubble_pass
    bubble_pass-IsTop zero s e a at top = let same : s ≡ e = omega arith in rw (sym same) top
    bubble_pass-IsTop (suc k) s e a at top =
        bubble_pass-IsTop k (suc s) e (order_pair s a) (omega arith) (order_pair-IsTop s a top)

    -- the elements from `e` on stand where they belong
    abbrev IsDone : ℕ → ℕ → Array A → Type 0
    IsDone e n a = (i j : ℕ) → i < j → e ≤ j → j < n → Le cmp (a i) (a j)

    pass-IsDone :
        (e n : ℕ) (b a : Array A)
        → Permuted (suc e) b a
        → IsTop e b
        → IsDone (suc e) n a
        → IsDone e n b
    pass-IsDone e n b a perm top done i j h l' k = elim (lt_or_eq l') [
      | inl above ↦ rw (perm.others j above) (elim (lt_or_ge i (suc e)) [
        | inl left ↦
            Permuted-all (λ x. is_le (cmp x (a j))) (suc e) b a perm
              (λ q m. done q j (omega arith) above k) i left
        | inr right ↦ rw (perm.others i right) (done i j h above k)
      ])
      | inr same ↦ rw (sym same) (top i (omega arith))
    ]

    bubble_loop-SortOf :
        (e n : ℕ) (a : Array A) → e < n → IsDone (suc e) n a → SortOf cmp n (bubble_loop cmp e a) a
    unfolding bubble_loop
    bubble_loop-SortOf zero n a h done = (λ i j l k. done i j l (omega arith) k, Permuted-refl n a)
    bubble_loop-SortOf (suc e) n a h done =
        let b = bubble_pass cmp (suc e) 0 a in
        let near = bubble_pass-Permuted (suc e) 0 (suc (suc e)) a (omega arith) in
        let top = bubble_pass-IsTop (suc e) 0 (suc e) a (omega arith) (first-IsTop a) in
        let (sorted, perm) =
          bubble_loop-SortOf e n b (omega arith) (pass-IsDone (suc e) n b a near top done) in
        (sorted, Permuted-trans perm (Permuted-widen (omega arith) near))

    -- With a `cmp` that is an order, `bubble_sort` puts the elements in order, keeps each of them
    -- as often as it is there, and touches nothing behind them.
    pub bubble_sort-SortOf :
        (nmemb : ℕ) (a : Array A) → SortOf cmp nmemb (bubble_sort cmp nmemb a) a
    unfolding bubble_sort bubble_loop
    bubble_sort-SortOf zero a = (λ i j h l. ground arith, Permuted-refl 0 a)
    bubble_sort-SortOf (suc n) a =
        let same : suc n - 1 ≡ n = omega arith in
        rw same (bubble_loop-SortOf n (suc n) a (omega arith) (λ i j h l k. ground arith))
