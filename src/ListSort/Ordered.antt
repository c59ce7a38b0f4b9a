-- ===== src/ListSort/Ordered.antt =====
-- `insert_sort` leaves the links of a list in order, each of them where it was or elsewhere in it.
use demo_class.Common.{
  ℕ, ◌+◌, ◌*◌, ◌<◌, ◌≡◌, refl, inl, inr, true, ◌||◌, some, List, [], ◌∷◌, Ordering, arith, length,
  ◌==◌, Bool-cases,
}
use demo_class.Common.Order.{IsOrder, is_le, is_ge}
use demo_class.Links.{Links}
use demo_class.Links.Seg.{has}
use demo_class.Links.Ring.{Ring}
use demo_class.ListSort.{insert_sort}
use demo_class.ListSort.Insert.{
  onto, placed, joined, insertion_sort, insertion, insert_sort-insertion, length-joined,
}

has-onto : (p : ℕ) (rs ys : List ℕ) → has p (onto rs ys) ≡ (has p rs || has p ys)
has-onto p [] ys = refl
has-onto p (r ∷ rs) ys = ground (arith, has-onto p rs (r ∷ ys))

length-onto : (rs ys : List ℕ) → length (onto rs ys) ≡ length rs + length ys
length-onto [] ys = omega arith
length-onto (r ∷ rs) ys = omega (arith, length-onto rs (r ∷ ys))

module _ (cmp : ℕ → ℕ → Ordering) where
  has-placed : (p i : ℕ) (rs : List ℕ) → has p (placed cmp rs i) ≡ (p == i || has p rs)
  has-placed p i [] = refl
  has-placed p i (r ∷ rs) = ground (arith, has-placed p i rs)

  has-joined : (p i : ℕ) (rs : List ℕ) → has p (joined cmp rs i) ≡ (p == i || has p rs)
  has-joined p i [] = refl
  has-joined p i (r ∷ rs) = ground (arith, has-placed p i rs)

  has-insertion_sort :
      (p : ℕ) (rs ys : List ℕ) → has p (insertion_sort cmp rs ys) ≡ (has p rs || has p ys)
  has-insertion_sort p rs [] = has-onto p rs []
  has-insertion_sort p rs (y ∷ ys) =
      ground (arith, has-insertion_sort p (joined cmp rs y) ys, has-joined p y rs)

  pub has-insertion : (p : ℕ) (xs : List ℕ) → has p (insertion cmp xs) ≡ has p xs
  has-insertion p [] = refl
  has-insertion p (x ∷ xs) = ground (arith, has-insertion_sort p (x ∷ []) xs)

  length-insertion_sort :
      (rs ys : List ℕ) → length (insertion_sort cmp rs ys) ≡ length rs + length ys
  length-insertion_sort rs [] = length-onto rs []
  length-insertion_sort rs (y ∷ ys) =
      omega (arith, length-insertion_sort (joined cmp rs y) ys, length-joined cmp rs y)

  pub length-insertion : (xs : List ℕ) → length (insertion cmp xs) ≡ length xs
  length-insertion [] = refl
  length-insertion (x ∷ xs) = omega (arith, length-insertion_sort (x ∷ []) xs)

  -- none of the links is above a later one, and the same of a list kept backwards
  abbrev pub IsRising : List ℕ → Type 0
  IsRising [] = Unit
  IsRising (x ∷ xs) = ((p : ℕ) → has p xs ≡ true → is_le (cmp x p) ≡ true) × IsRising xs

  abbrev IsFalling : List ℕ → Type 0
  IsFalling [] = Unit
  IsFalling (r ∷ rs) = ((p : ℕ) → has p rs ≡ true → is_le (cmp p r) ≡ true) × IsFalling rs

  onto-IsRising :
      (rs ys : List ℕ)
      → IsFalling rs
      → IsRising ys
      → ((p q : ℕ) → has p rs ≡ true → has q ys ≡ true → is_le (cmp p q) ≡ true)
      → IsRising (onto rs ys)
  onto-IsRising [] ys f g cross = g
  onto-IsRising (r ∷ rs) ys f g cross =
      onto-IsRising rs (r ∷ ys) f.1 (λ q h. cross r q (ground arith) h, g)
        (λ p q h k. ground (arith, f.0 p h, cross p q))

  module _ (o : IsOrder cmp) where
    placed-IsFalling : (rs : List ℕ) (i : ℕ) → IsFalling rs → IsFalling (placed cmp rs i)
    placed-IsFalling [] i f = (λ p h. ground arith, tt)
    placed-IsFalling (r ∷ rs) i f = elim (Bool-cases (is_le (cmp r i))) [
      | inl e ↦ rw e (λ p h. ground (arith, f.0 p, o.trans p r i), f)
      | inr e ↦
          rw e (
            λ p h. ground (arith, f.0 p, has-placed p i rs, o.flips i r),
            placed-IsFalling rs i f.1,
          )
    ]

    joined-IsFalling : (rs : List ℕ) (i : ℕ) → IsFalling rs → IsFalling (joined cmp rs i)
    joined-IsFalling [] i f = (λ p h. ground arith, tt)
    joined-IsFalling (r ∷ rs) i f = elim (Bool-cases (is_ge (cmp i r))) [
      | inl e ↦ rw e (λ p h. ground (arith, f.0 p, o.trans p r i, o.flips i r), f)
      | inr e ↦ rw e (placed-IsFalling (r ∷ rs) i f)
    ]

    insertion_sort-IsRising : (rs ys : List ℕ) → IsFalling rs → IsRising (insertion_sort cmp rs ys)
    insertion_sort-IsRising rs [] f = onto-IsRising rs [] f tt (λ p q h k. ground arith)
    insertion_sort-IsRising rs (y ∷ ys) f =
        insertion_sort-IsRising (joined cmp rs y) ys (joined-IsFalling rs y f)

    -- With a `cmp` that is an order, `insert_sort` ends, and leaves the same links in the list, none of
    -- them above a later one.
    pub insert_sort-IsRising :
        (m : Links) (head k : ℕ) (xs : List ℕ)
        → 2 * length xs < k
        → Ring m head xs
        → (m' : Links) × (ys : List ℕ) × (insert_sort cmp k head m ≡ some m')
          × Ring m' head ys
          × IsRising ys
          × (length ys ≡ length xs)
          × ((p : ℕ) → has p ys ≡ has p xs)
    insert_sort-IsRising m head k [] fuel r =
        let (m', run, ring) = insert_sort-insertion cmp m head k [] fuel r in
        (m', [], run, ring, tt, refl, λ p. refl)
    insert_sort-IsRising m head k (x ∷ xs) fuel r =
        let (m', run, ring) = insert_sort-insertion cmp m head k (x ∷ xs) fuel r in
        (
          m',
          insertion cmp (x ∷ xs),
          run,
          ring,
          insertion_sort-IsRising (x ∷ []) xs (λ p h. ground arith, tt),
          length-insertion (x ∷ xs),
          λ p. has-insertion p (x ∷ xs),
        )
