-- ===== src/ListSort/Insert.antt =====
-- `insert_sort` of a list, against an insertion sort of the list of its links. The part that is in order
-- is kept with its last link first, since the source walks it from there.
use mathlib.Core.Path.{subst}
use demo_class.Common.{
  ℕ, zero, suc, ◌+◌, ◌*◌, ◌<◌, ◌≡◌, refl, sym, ap, ◌∙◌, inl, inr, true, false, Option, some, List,
  [], ◌∷◌, ◌++◌, Ordering, arith, length, ◌==◌, if◌then◌else◌, Bool-cases,
}
use demo_class.Common.Order.{is_le, is_ge}
use demo_class.Links.{Links, list_insert, list_del}
use demo_class.Links.Seg.{has, last, has-append}
use demo_class.Links.Splice.{following}
use demo_class.Links.Ring.{Ring, list_del-Ring, list_insert-Ring, Distinct-delete, first-Ring}
use demo_class.Links.Beside.{next-Ring, prev-Ring, insert_behind-Ring, last-append}
use demo_class.ListSort.{place_loop, insert_loop, insert_sort}

-- the list whose first part is `rs` backwards
abbrev pub onto : List ℕ → List ℕ → List ℕ
onto [] ys = ys
onto (r ∷ rs) ys = onto rs (r ∷ ys)

pub onto-append : (rs xs ys : List ℕ) → onto rs xs ++ ys ≡ onto rs (xs ++ ys)
onto-append [] xs ys = refl
onto-append (r ∷ rs) xs ys = onto-append rs (r ∷ xs) ys

last-onto : (head : ℕ) (rs : List ℕ) → last head (onto rs []) ≡ following head rs
last-onto head [] = refl
last-onto head (r ∷ rs) =
    ap (last head) (sym (onto-append rs [] (r ∷ []))) ∙ last-append head r (onto rs [])

module _ (cmp : ℕ → ℕ → Ordering) where
  -- `i` among `rs`, behind the first of them that is not above it
  abbrev pub placed : List ℕ → ℕ → List ℕ
  placed [] i = i ∷ []
  placed (r ∷ rs) i = if is_le (cmp r i) then i ∷ r ∷ rs else r ∷ placed rs i

  -- a link that is not below the last stays where it is
  abbrev pub joined : List ℕ → ℕ → List ℕ
  joined [] i = i ∷ []
  joined (r ∷ rs) i = if is_ge (cmp i r) then i ∷ r ∷ rs else placed (r ∷ rs) i

  abbrev pub insertion_sort : List ℕ → List ℕ → List ℕ
  insertion_sort rs [] = onto rs []
  insertion_sort rs (y ∷ ys) = insertion_sort (joined rs y) ys

  place_loop-placed :
      (rs ys : List ℕ) (k head i : ℕ) (m : Links)
      → length rs < k
      → Ring m head (onto rs ys)
      → has i (head ∷ onto rs ys) ≡ false
      → (m' : Links) × (place_loop cmp k head i (following head rs) m ≡ some m')
        × Ring m' head (onto (placed rs i) ys)
  unfolding place_loop
  place_loop-placed rs ys zero head i m fuel r fresh = absurd (omega arith)
  place_loop-placed [] ys (suc k) head i m fuel r fresh =
      let home : (head == head) ≡ true = ground arith in
      rw (home, first-Ring m head ys r)
        (list_insert i head (following head ys) m, refl, list_insert-Ring m head [] ys i r fresh)
  place_loop-placed (p ∷ rs) ys (suc k) head i m fuel r fresh =
      let row : Ring m head (onto rs [] ++ p ∷ ys) =
        subst (Ring m head) (sym (onto-append rs [] (p ∷ ys))) r in
      let more : (p == head) ≡ false =
        ground (arith, row.distinct.0, has-append head (onto rs []) (p ∷ ys)) in
      elim (Bool-cases (is_le (cmp p i))) [
        | inl e ↦
            rw (more, e)
              (
                list_insert i p (m.next p) m,
                refl,
                subst (Ring (list_insert i p (m.next p) m) head) (onto-append rs [] (p ∷ i ∷ ys)) (
                    insert_behind-Ring m head p i (onto rs []) ys row (
                      subst (λ zs. has i (head ∷ zs) ≡ false) (sym (onto-append rs [] (p ∷ ys)))
                        fresh)),
              )
        | inr e ↦
            let back : m.prev p ≡ following head rs =
              prev-Ring m head p (onto rs []) ys row ∙ last-onto head rs in
            rw (more, e, back) (place_loop-placed rs (p ∷ ys) k head i m (omega arith) r fresh)
      ]

  length-placed : (rs : List ℕ) (i : ℕ) → length (placed rs i) ≡ suc (length rs)
  length-placed [] i = refl
  length-placed (r ∷ rs) i = ground (arith, length-placed rs i)

  pub length-joined : (rs : List ℕ) (i : ℕ) → length (joined rs i) ≡ suc (length rs)
  length-joined [] i = refl
  length-joined (r ∷ rs) i = ground (arith, length-placed rs i)

  -- one round of the outer loop
  abbrev insert_round : ℕ → ℕ → ℕ → Links → Option Links
  insert_round k head i m =
      if is_ge (cmp i (m.prev i)) then some m else place_loop cmp k head i (m.prev i) (list_del i m)

  round-joined :
      (p y : ℕ) (rs ys : List ℕ) (k head : ℕ) (m : Links)
      → suc (length rs) < k
      → Ring m head (onto (p ∷ rs) [] ++ y ∷ ys)
      → (m' : Links) × (insert_round k head y m ≡ some m')
        × Ring m' head (onto (joined (p ∷ rs) y) ys)
  round-joined p y rs ys k head m fuel row =
      let back : m.prev y ≡ p =
        prev-Ring m head y (onto (p ∷ rs) []) ys row ∙ last-onto head (p ∷ rs) in
      elim (Bool-cases (is_ge (cmp y p))) [
        | inl e ↦ rw (back, e) (m, refl, subst (Ring m head) (onto-append (p ∷ rs) [] (y ∷ ys)) row)
        | inr e ↦
            let without = onto-append (p ∷ rs) [] ys in
            let out =
              subst (λ zs. has y (head ∷ zs) ≡ false) without
                (Distinct-delete head y (onto (p ∷ rs) []) ys row.distinct).1 in
            rw (back, e)
              (place_loop-placed (p ∷ rs) ys k head y (list_del y m) (omega arith)
                (subst (Ring (list_del y m) head) without
                  (list_del-Ring m head y (onto (p ∷ rs) []) ys row))
                out)
      ]

  insert_loop-insertion :
      (ys rs : List ℕ) (k head : ℕ) (m : Links)
      → 0 < length rs
      → 2 * length ys + length rs < k
      → Ring m head (onto rs ys)
      → (m' : Links) × (insert_loop cmp k head (following head ys) m ≡ some m')
        × Ring m' head (insertion_sort rs ys)
  unfolding insert_loop
  insert_loop-insertion ys rs zero head m some_rs fuel r = absurd (omega arith)
  insert_loop-insertion ys [] (suc k) head m some_rs fuel r = absurd (omega arith)
  insert_loop-insertion [] (p ∷ rs) (suc k) head m some_rs fuel r =
      let home : (head == head) ≡ true = ground arith in rw home (m, refl, r)
  insert_loop-insertion (y ∷ ys) (p ∷ rs) (suc k) head m some_rs fuel r =
      let row : Ring m head (onto (p ∷ rs) [] ++ y ∷ ys) =
        subst (Ring m head) (sym (onto-append (p ∷ rs) [] (y ∷ ys))) r in
      let more : (y == head) ≡ false =
        ground (arith, row.distinct.0, has-append head (onto (p ∷ rs) []) (y ∷ ys)) in
      let (m₁, run, ring) = round-joined p y rs ys k head m (omega arith) row in
      let longer = length-joined (p ∷ rs) y in
      rw (more, run, next-Ring m head y (onto (p ∷ rs) []) ys row)
        (insert_loop-insertion ys (joined (p ∷ rs) y) k head m₁ (omega (arith, longer))
          (omega (arith, longer)) ring)

  -- the list that `insert_sort` leaves
  abbrev pub insertion : List ℕ → List ℕ
  insertion [] = []
  insertion (x ∷ xs) = insertion_sort (x ∷ []) xs

  pub insert_sort-insertion :
      (m : Links) (head k : ℕ) (xs : List ℕ)
      → 2 * length xs < k
      → Ring m head xs
      → (m' : Links) × (insert_sort cmp k head m ≡ some m') × Ring m' head (insertion xs)
  unfolding insert_sort insert_loop
  insert_sort-insertion m head zero xs fuel r = absurd (omega arith)
  insert_sort-insertion m head (suc k) [] fuel r =
      let home : (head == head) ≡ true = ground arith in
      let first = first-Ring m head [] r in rw (first, first, home) (m, refl, r)
  insert_sort-insertion m head (suc k) (x ∷ xs) fuel r =
      rw (first-Ring m head (x ∷ xs) r, next-Ring m head x [] xs r)
        (insert_loop-insertion xs (x ∷ []) (suc k) head m (omega arith) (omega arith) r)
