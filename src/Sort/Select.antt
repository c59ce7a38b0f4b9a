-- ===== src/Sort/Select.antt =====
-- `select_sort` of an array.
use demo_class.Common.{
  ℕ, zero, suc, ◌+◌, ◌-◌, ◌≤◌, ◌<◌, ◌≡◌, ◌^◌, ◌%◌, refl, sym, true, inl, inr, Ordering, arith,
  if◌then◌else◌, Bool-cases, ◌==◌,
}
use demo_class.Common.Order.{IsOrder, is_lt}
use demo_class.Sort.{Array, swap, min_loop, select_loop, select_sort}
use demo_class.Sort.Elements.{Le, SortOf, Permuted, Permuted-refl, Permuted-trans, swap-Permuted}

module _ {ℓ} {A : Type ℓ} (cmp : A → A → Ordering) (o : IsOrder cmp) where
  -- `m` is where the least of the elements from `i` to before `j` is
  record IsLeast (i j m : ℕ) (a : Array A) : Type 0 where
    from : i ≤ m
    below : m < j
    least : (x : ℕ) → i ≤ x → x < j → Le cmp (a m) (a x)

  min_loop-IsLeast :
      (k i j n m : ℕ) (a : Array A)
      → j + k ≡ n
      → IsLeast i j m a
      → IsLeast i n (min_loop cmp k j m a) a
  unfolding min_loop
  min_loop-IsLeast zero i j n m a e l = let same : j ≡ n = omega arith in rw (sym same) l
  min_loop-IsLeast (suc k) i j n m a e l =
      min_loop-IsLeast k i (suc j) n (if is_lt (cmp (a j) (a m)) then j else m) a (omega arith)
        (record {
          from = ground (arith, l.from, l.below);
          below = ground (arith, l.below);
          least = λ x h h'. ground (
            arith,
            l.least x h,
            o.flips (a j) (a m),
            o.flips (a j) (a j),
            o.trans (a j) (a m) (a x),
          );
        })

  abbrev select_round : ℕ → ℕ → Array A → Array A
  select_round i n a =
      let m = min_loop cmp (n - suc i) (suc i) i a in if m == i then a else swap i m a

  round-IsLeast :
      (i n : ℕ) (a : Array A) → i < n → IsLeast i n (min_loop cmp (n - suc i) (suc i) i a) a
  round-IsLeast i n a h = min_loop-IsLeast (n - suc i) i (suc i) n i a (omega arith) (record {
    from = omega arith;
    below = omega arith;
    least = λ x l l'. ground (arith, o.flips (a i) (a i));
  })

  select_round-Permuted : (i n : ℕ) (a : Array A) → i < n → Permuted n (select_round i n a) a
  select_round-Permuted i n a h =
      let l = round-IsLeast i n a h in
      elim (Bool-cases (min_loop cmp (n - suc i) (suc i) i a == i)) [
        | inl e ↦ rw e (Permuted-refl n a)
        | inr e ↦ rw e (swap-Permuted n i (min_loop cmp (n - suc i) (suc i) i a) a h l.below)
      ]

  -- the first `i` elements stand where they belong
  abbrev IsDone : ℕ → ℕ → Array A → Type 0
  IsDone i n a = (x y : ℕ) → x < y → y < n → x < i → Le cmp (a x) (a y)

  swap-IsDone :
      (i n m : ℕ) (a : Array A)
      → i < n
      → IsLeast i n m a
      → IsDone i n a
      → IsDone (suc i) n (if m == i then a else swap i m a)
  unfolding swap
  swap-IsDone i n m a h l done x y s t u =
      ground (arith, l.from, l.below, l.least y, l.least i, done x y, done x i, done x m)

  select_loop-SortOf :
      (k i n : ℕ) (a : Array A)
      → suc (i + k) ≡ n
      → IsDone i n a
      → SortOf cmp n (select_loop cmp k i n a) a
  unfolding select_loop
  select_loop-SortOf zero i n a e done = (λ x y s t. done x y s t (omega arith), Permuted-refl n a)
  select_loop-SortOf (suc k) i n a e done =
      let (sorted, perm) = select_loop-SortOf k (suc i) n (select_round i n a) (omega arith) (
        swap-IsDone i n (min_loop cmp (n - suc i) (suc i) i a) a (omega arith)
          (round-IsLeast i n a (omega arith)) done) in
      (sorted, Permuted-trans perm (select_round-Permuted i n a (omega arith)))

  select_loop-none : (k i : ℕ) (a : Array A) → select_loop cmp k i 0 a ≡ a
  unfolding select_loop min_loop
  select_loop-none zero i a = refl
  select_loop-none (suc k) i a =
      let none_left : 0 - suc i ≡ 0 = omega arith in
      let same : (i == i) ≡ true = ground arith in
      rw (none_left, same) (select_loop-none k (suc i) a)

  select_loop-empty : (k : ℕ) (a : Array A) → SortOf cmp 0 (select_loop cmp k 0 0 a) a
  select_loop-empty k a = rw (select_loop-none k 0 a) (λ x y s t. ground arith, Permuted-refl 0 a)

  -- With a `cmp` that is an order, `select_sort` puts the elements in order, keeps each of them as
  -- often as it is there, and touches nothing behind them, for each `nmemb` that is a `size_t`.
  pub select_sort-SortOf :
      (nmemb : ℕ) (a : Array A) → nmemb < 2 ^ 64 → SortOf cmp nmemb (select_sort cmp nmemb a) a
  unfolding select_sort
  select_sort-SortOf zero a fits = select_loop-empty ((0 + (2 ^ 64 - 1)) % 2 ^ 64) a
  select_sort-SortOf (suc n) a fits =
      let rounds : (suc n + (2 ^ 64 - 1)) % 2 ^ 64 ≡ n = omega arith in
      rw rounds (select_loop-SortOf n 0 (suc n) a (omega arith) (λ x y s t u. ground arith))
