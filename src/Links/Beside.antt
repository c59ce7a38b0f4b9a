-- ===== src/Links/Beside.antt =====
-- The neighbours of a link of a ring, and a link put in before or behind it.
use mathlib.Core.Path.{subst}
use demo_class.Common.{ℕ, ◌≡◌, refl, sym, false, List, [], ◌∷◌, ◌++◌, append_assoc}
use demo_class.Links.{Links, list_insert}
use demo_class.Links.Seg.{has, last, Seg, Seg-append}
use demo_class.Links.Splice.{following}
use demo_class.Links.Ring.{Ring, list_insert-Ring}

pub last-append : (a x : ℕ) (xs : List ℕ) → last a (xs ++ x ∷ []) ≡ x
last-append a x [] = refl
last-append a x (y ∷ xs) = last-append y x xs

next-Seg :
    (m : Links) (head p : ℕ) (ys : List ℕ)
    → Seg m p (ys ++ head ∷ [])
    → m.next p ≡ following head ys
next-Seg m head p [] s = s.0.0
next-Seg m head p (y ∷ ys) s = s.0.0

pub next-Ring :
    (m : Links) (head p : ℕ) (xs ys : List ℕ)
    → Ring m head (xs ++ p ∷ ys)
    → m.next p ≡ following head ys
next-Ring m head p xs ys r =
    let row = subst (Seg m head) (append_assoc xs (p ∷ ys) (head ∷ [])) r.linked in
    next-Seg m head p ys ((Seg-append m head xs (p ∷ (ys ++ head ∷ []))).0 row).1.1

-- `__list_add(node, p, p->next)` of a link that is in no list
pub insert_behind-Ring :
    (m : Links) (head p node : ℕ) (xs ys : List ℕ)
    → Ring m head (xs ++ p ∷ ys)
    → has node (head ∷ (xs ++ p ∷ ys)) ≡ false
    → Ring (list_insert node p (m.next p) m) head (xs ++ p ∷ node ∷ ys)
insert_behind-Ring m head p node xs ys r fresh =
    let split : (zs : List ℕ) → (xs ++ p ∷ []) ++ zs ≡ xs ++ p ∷ zs =
      λ zs. append_assoc xs (p ∷ []) zs in
    let inserted =
      list_insert-Ring m head (xs ++ p ∷ []) ys node (subst (Ring m head) (sym (split ys)) r)
        (subst (λ zs. has node (head ∷ zs) ≡ false) (sym (split ys)) fresh) in
    rw (next-Ring m head p xs ys r) (
      subst (λ q. Ring (list_insert node q (following head ys) m) head (xs ++ p ∷ node ∷ ys))
        (last-append head p xs)
        (subst (Ring (list_insert node (last head (xs ++ p ∷ [])) (following head ys) m) head)
          (split (node ∷ ys)) inserted))

pub prev-Ring :
    (m : Links) (head p : ℕ) (xs ys : List ℕ) → Ring m head (xs ++ p ∷ ys) → m.prev p ≡ last head xs
prev-Ring m head p xs ys r =
    let row = subst (Seg m head) (append_assoc xs (p ∷ ys) (head ∷ [])) r.linked in
    ((Seg-append m head xs (p ∷ (ys ++ head ∷ []))).0 row).1.0.1
