-- ===== src/Huff/Build/Lists.antt =====
-- The lists of nodes that `hf_build_sort_list` and `list_add_with_sort` make.
use mathlib.Core.Path.{subst}
use demo_class.Common.{
  ℕ, zero, suc, ◌+◌, ◌≤◌, ◌<◌, ◌≡◌, ◌≢◌, refl, sym, ap, ◌∙◌, inl, inr, true, false, some, List, [],
  ◌∷◌, ◌++◌, append_assoc, append-nil, Ordering, arith, length, length-append, ◌==◌, Bool-cases,
  lt_or_eq,
}
use demo_class.Common.Order.{is_gt}
use demo_class.Links.{Links, list_insert, list_add_tail}
use demo_class.Links.Seg.{has, last, has-append}
use demo_class.Links.Splice.{following}
use demo_class.Links.Ring.{Ring, list_insert-Ring, last-Ring, first-Ring, list_add_tail-Ring}
use demo_class.Links.Beside.{next-Ring, prev-Ring}
use demo_class.Huff.{head, fuel, add_loop, list_add_with_sort, sort_list_loop}

-- the node has been put in somewhere
abbrev pub PutIn : Links → ℕ → List ℕ → Type 0
PutIn m node xs = (us : List ℕ) × (vs : List ℕ) × (us ++ vs ≡ xs) × Ring m head (us ++ node ∷ vs)

module _ (cmp : ℕ → ℕ → Ordering) (m : Links) (node : ℕ) where
  add_loop-PutIn :
      (k : ℕ) (us vs : List ℕ)
      → Ring m head (us ++ vs)
      → has node (head ∷ (us ++ vs)) ≡ false
      → length vs < k
      → (m' : Links) × (add_loop cmp k node (following head vs) m ≡ some m')
        × PutIn m' node (us ++ vs)
  unfolding add_loop
  add_loop-PutIn zero us vs r fresh enough = absurd (omega arith)
  add_loop-PutIn (suc k) us [] r fresh enough =
      let back : m.prev head ≡ last head us = rw append-nil at (last-Ring m head (us ++ []) r) in
      (
        list_insert node (m.prev head) head m,
        refl,
        (us, [], refl, rw back (list_insert-Ring m head us [] node r fresh)),
      )
  add_loop-PutIn (suc k) us (v ∷ vs) r fresh enough =
      let inside : (v == head) ≡ false =
        ground (arith, r.distinct.0, has-append head us (v ∷ vs)) in
      elim (Bool-cases (is_gt (cmp node v))) [
        | inl above ↦
            let split = append_assoc us (v ∷ []) vs in
            let (m', run, (us', vs', same, ring)) =
              add_loop-PutIn k (us ++ v ∷ []) vs (subst (Ring m head) (sym split) r)
                (subst (λ q. has node (head ∷ q) ≡ false) (sym split) fresh) (omega arith) in
            (
              m',
              rw (inside, add_loop, above, next-Ring m head v us vs r) run,
              (us', vs', same ∙ split, ring),
            )
        | inr below ↦ (
          list_insert node (m.prev v) v m,
          rw (inside, add_loop, below) refl,
          (
            us,
            v ∷ vs,
            refl,
            rw (prev-Ring m head v us vs r) (list_insert-Ring m head us (v ∷ vs) node r fresh),
          ),
        )
      ]

  -- A node that is in no list is put into the list, wherever its weight places it.
  pub list_add_with_sort-PutIn :
      (xs : List ℕ)
      → Ring m head xs
      → has node (head ∷ xs) ≡ false
      → length xs < fuel
      → (m' : Links) × (list_add_with_sort cmp node m ≡ some m') × PutIn m' node xs
  unfolding list_add_with_sort
  list_add_with_sort-PutIn xs r fresh enough =
      rw (first-Ring m head xs r) (add_loop-PutIn fuel [] xs r fresh enough)

-- the list holds the leaves below `i` that are used
pub record Used (weight : ℕ → ℕ) (i : ℕ) (xs : List ℕ) : Type 0 where
  pub below : (p : ℕ) → has p xs ≡ true → p < i
  pub used : (p : ℕ) → p < i → weight p ≢ 0 → has p xs ≡ true
  pub few : length xs ≤ i

module _ (weight : ℕ → ℕ) (i : ℕ) (xs : List ℕ) (u : Used weight i xs) where
  Used-skip : weight i ≡ 0 → Used weight (suc i) xs
  Used-skip free = record {
    below = λ p h. omega (arith, u.below p h);
    used = λ p h w. elim (lt_or_eq h) [
      | inl more ↦ u.used p (omega arith) w
      | inr same ↦ absurd (w (ap weight (omega arith) ∙ free))
    ];
    few = omega (arith, u.few);
  }

  Used-take : Used weight (suc i) (xs ++ i ∷ [])
  Used-take = record {
    below = λ p h. ground (arith, has-append p xs (i ∷ []), u.below p);
    used = λ p h w. ground (arith, has-append p xs (i ∷ []), u.used p);
    few = omega (arith, u.few, length-append xs (i ∷ []));
  }

-- The leaves with a weight are put into the list, in the order of their bytes.
pub sort_list_loop-Used :
    (k i : ℕ) (weight : ℕ → ℕ) (m : Links) (xs : List ℕ)
    → i + k ≤ 256
    → Ring m head xs
    → Used weight i xs
    → (ys : List ℕ) × Ring (sort_list_loop k i weight m) head ys × Used weight (i + k) ys
unfolding sort_list_loop
sort_list_loop-Used zero i weight m xs room r u =
    let same : i + 0 ≡ i = omega arith in rw same (xs, r, u)
sort_list_loop-Used (suc k) i weight m xs room r u =
    let same : i + suc k ≡ suc i + k = omega arith in
    let fresh : has i (head ∷ xs) ≡ false = ground (arith, u.below i) in
    elim (Bool-cases (weight i == 0)) [
      | inl free ↦
          rw (same, free)
            (sort_list_loop-Used k (suc i) weight m xs (omega arith) r
              (Used-skip weight i xs u (ground arith)))
      | inr taken ↦
          rw (same, taken)
            (sort_list_loop-Used k (suc i) weight (list_add_tail head i m) (xs ++ i ∷ [])
              (omega arith) (list_add_tail-Ring m head i xs r fresh) (Used-take weight i xs u))
    ]
