-- ===== src/Sort/Shell.antt =====
-- `shell_sort` of an array.
use demo_class.Common.{
  ℕ, zero, suc, ◌+◌, ◌-◌, ◌*◌, ◌≤◌, ◌<◌, ◌≡◌, refl, inl, inr, Ordering, arith, if◌then◌else◌,
  Bool-cases, ltb, true, false,
}
use demo_class.Common.Order.{IsOrder, is_gt, is_ge}
use demo_class.Sort.{
  Array, write, insert_shift, insert_loop, insert_sort, shell_shift, shell_loop, shell_pass,
  shell_sort,
}
use demo_class.Sort.Elements.{SortOf, Permuted, Permuted-refl, Permuted-trans, move-Permuted}
use demo_class.Sort.Insert.{insert_sort-SortOf, write-same}

module _ {ℓ} {A : Type ℓ} (cmp : A → A → Ordering) where
  module _ (step offset : ℕ) (positive : 0 < step) where
    -- the place of the `q`th element
    abbrev place : ℕ → ℕ
    place q = offset + q * step

    next-place : (q : ℕ) → place (suc q) ≡ place q + step
    next-place q = omega arith

    shell_shift-Permuted :
        (q n : ℕ) (buf : A) (a : Array A)
        → place q < n
        → Permuted n (shell_shift cmp step offset q buf a) (write (place q) buf a)
    unfolding shell_shift
    shell_shift-Permuted zero n buf a h =
        let first : place 0 ≡ offset = omega arith in
        rw first (Permuted-refl n (write offset buf a))
    shell_shift-Permuted (suc q) n buf a h =
        rw (next-place q) (elim (Bool-cases (is_gt (cmp (a (place q)) buf))) [
          | inl e ↦ rw e (
              Permuted-trans
                (shell_shift-Permuted q n buf (write (place q + step) (a (place q)) a)
                  (omega arith))
                (move-Permuted n (place q) (place q + step) buf a (ground arith) (omega arith)
                  (omega arith)))
          | inr e ↦ rw e (Permuted-refl n (write (place q + step) buf a))
        ])

    -- one round: the element behind the first `q + 1` joins them
    abbrev shell_round : ℕ → Array A → Array A
    shell_round q a =
        if is_ge (cmp (a (place q + step)) (a (place q)))
        then a
        else shell_shift cmp step offset (suc q) (a (place q + step)) a

    shell_round-Permuted :
        (q n : ℕ) (a : Array A) → place q + step < n → Permuted n (shell_round q a) a
    shell_round-Permuted q n a h =
        elim (Bool-cases (is_ge (cmp (a (place q + step)) (a (place q))))) [
          | inl e ↦ rw e (Permuted-refl n a)
          | inr e ↦ rw e (
              Permuted-trans (shell_shift-Permuted (suc q) n (a (place q + step)) a (omega arith))
                (rw (next-place q) (write-same cmp n (place q + step) a)))
        ]

    shell_loop-Permuted :
        (fuel q n : ℕ) (a : Array A) → Permuted n (shell_loop cmp fuel step offset q n a) a
    unfolding shell_loop
    shell_loop-Permuted zero q n a = Permuted-refl n a
    shell_loop-Permuted (suc fuel) q n a = elim (Bool-cases (ltb (place q + step) n)) [
      | inl e ↦ rw e (
          Permuted-trans (shell_loop-Permuted fuel (suc q) n (shell_round q a))
            (shell_round-Permuted q n a (ground arith)))
      | inr e ↦ rw e (Permuted-refl n a)
    ]

  shell_pass-Permuted :
      (k step offset n : ℕ) (a : Array A)
      → 0 < step
      → Permuted n (shell_pass cmp k step offset n a) a
  unfolding shell_pass
  shell_pass-Permuted zero step offset n a h = Permuted-refl n a
  shell_pass-Permuted (suc k) step offset n a h =
      Permuted-trans
        (shell_pass-Permuted k step (suc offset) n (shell_loop cmp n step offset 0 n a) h)
        (shell_loop-Permuted step offset h n 0 n a)

  shell_shift-one :
      (q : ℕ) (buf : A) (a : Array A) → shell_shift cmp 1 0 q buf a ≡ insert_shift cmp q buf a
  unfolding shell_shift insert_shift
  shell_shift-one zero buf a = refl
  shell_shift-one (suc q) buf a =
      let at : 0 + q * 1 ≡ q = omega arith in
      let behind : q + 1 ≡ suc q = omega arith in
      rw (at, behind, shell_shift-one q buf (write (suc q) (a q) a)) refl

  -- with the step 1 the loop is that of `insert_sort`
  shell_loop-one :
      (fuel k q n : ℕ) (a : Array A)
      → k ≡ n - suc q
      → k ≤ fuel
      → shell_loop cmp fuel 1 0 q n a ≡ insert_loop cmp k q a
  unfolding shell_loop insert_loop
  shell_loop-one zero zero q n a e h = refl
  shell_loop-one zero (suc k) q n a e h = ground arith
  shell_loop-one (suc fuel) zero q n a e h =
      let out : ltb (0 + q * 1 + 1) n ≡ false = ground arith in rw out refl
  shell_loop-one (suc fuel) (suc k) q n a e h =
      let at : 0 + q * 1 ≡ q = omega arith in
      let behind : q + 1 ≡ suc q = omega arith in
      let inside : ltb (suc q) n ≡ true = ground arith in
      rw (at, behind, inside, shell_shift-one q (a (suc q)) (write (suc q) (a q) a))
        (shell_loop-one fuel k (suc q) n
          (if is_ge (cmp (a (suc q)) (a q)) then a else insert_shift cmp (suc q) (a (suc q)) a)
          (omega arith) (omega arith))

  last-pass : (n : ℕ) (b : Array A) → shell_loop cmp n 1 0 0 n b ≡ insert_sort cmp n b
  unfolding insert_sort
  last-pass n b = shell_loop-one n (n - 1) 0 n b (omega arith) (omega arith)

  module _ (o : IsOrder cmp) where
    -- With a `cmp` that is an order, `shell_sort` puts the elements in order, keeps each of them
    -- as often as it is there, and touches nothing behind them.
    pub shell_sort-SortOf : (nmemb : ℕ) (a : Array A) → SortOf cmp nmemb (shell_sort cmp nmemb a) a
    unfolding shell_sort shell_pass
    shell_sort-SortOf n a =
        let b = shell_pass cmp 2 2 0 n (shell_pass cmp 3 3 0 n a) in
        let coarse =
          Permuted-trans (shell_pass-Permuted 2 2 0 n (shell_pass cmp 3 3 0 n a) (omega arith))
            (shell_pass-Permuted 3 3 0 n a (omega arith)) in
        let (sorted, perm) = insert_sort-SortOf cmp o n b in
        rw (last-pass n b) (sorted, Permuted-trans perm coarse)
