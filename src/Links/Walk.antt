-- ===== src/Links/Walk.antt =====
-- `list_for_each` meets the links of a ring, in order; `list_del_init` leaves a ring of its own.
use demo_class.Common.{
  ℕ, zero, suc, ◌<◌, ◌≡◌, refl, ap, ◌∙◌, false, some, List, [], ◌∷◌, ◌++◌, arith, length, ◌==◌,
}
use demo_class.Links.{Links, list_for_each_from, list_for_each, list_del, list_del_init}
use demo_class.Links.Seg.{has, Seg}
use demo_class.Links.Ring.{Ring, Ring-frame, list_del-Ring, Distinct-delete}

list_for_each_from-Seg :
    (m : Links) (head a : ℕ) (xs : List ℕ) (k : ℕ)
    → Seg m a (xs ++ head ∷ [])
    → has head xs ≡ false
    → length xs < k
    → list_for_each_from k head (m.next a) m ≡ some xs
unfolding list_for_each_from
list_for_each_from-Seg m head a xs zero s out fuel = absurd (omega arith)
list_for_each_from-Seg m head a [] (suc k) s out fuel = rw s.0.0 (ground arith)
list_for_each_from-Seg m head a (x ∷ xs) (suc k) s out fuel =
    let more : (x == head) ≡ false = ground arith in
    let rest : list_for_each_from k head (m.next x) m ≡ some xs =
      list_for_each_from-Seg m head x xs k s.1 (ground arith) (omega arith) in
    let step : list_for_each_from (suc k) head x m ≡ some (x ∷ xs) = rw (more, rest) in
    ap (λ (c : ℕ). list_for_each_from (suc k) head c m) s.0.0 ∙ step

-- The walk from the head ends where it began, and meets every link of the list once, in order.
pub list_for_each-Ring :
    (m : Links) (head : ℕ) (xs : List ℕ) (k : ℕ)
    → Ring m head xs
    → length xs < k
    → list_for_each k head m ≡ some xs
unfolding list_for_each
list_for_each-Ring m head xs k r fuel =
    list_for_each_from-Seg m head head xs k r.linked r.distinct.0 fuel

-- `list_del_init` takes the link out of its list and makes it a list of its own.
pub list_del_init-Ring :
    (m : Links) (head node : ℕ) (xs ys : List ℕ)
    → Ring m head (xs ++ node ∷ ys)
    → Ring (list_del_init node m) head (xs ++ ys) × Ring (list_del_init node m) node []
unfolding list_del_init
list_del_init-Ring m head node xs ys r =
    let (d, fresh) = Distinct-delete head node xs ys r.distinct in
    (
      Ring-frame (list_del node m) (list_del_init node m) head (xs ++ ys)
          (λ p h. (ground arith, ground arith)) (list_del-Ring m head node xs ys r),
      record { distinct = (refl, tt); linked = ((ground arith, ground arith), tt) },
    )
