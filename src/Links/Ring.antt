-- ===== src/Links/Ring.antt =====
-- list.h keeps rings: the head and the links of a list, each next to the following.
use demo_class.Common.{
  ℕ, ◌≡◌, ◌≢◌, refl, sym, ap, ◌∙◌, true, false, List, [], ◌∷◌, ◌++◌, arith, append_assoc,
  append-nil,
}
use mathlib.Core.Path.{subst}
use demo_class.Links.{
  Links, list_head_init, list_insert, list_add, list_add_tail, list_is_empty, list_del,
}
use demo_class.Links.Seg.{
  has, IsDistinct, last, Seg, has-append, Distinct-append, append-Distinct, Seg-append, Seg-frame,
  has-last,
}
use demo_class.Links.Splice.{
  insert-Seg, del-Seg, following, after, following-after, ring-CanInsert, init-snoc,
}

pub record Ring (m : Links) (head : ℕ) (xs : List ℕ) : Type 0 where
  pub distinct : IsDistinct (head ∷ xs)
  pub linked : Seg m head (xs ++ head ∷ [])

-- a ring depends on what its own links hold
pub Ring-frame :
    (m m' : Links) (head : ℕ) (xs : List ℕ)
    → ((p : ℕ) → has p (head ∷ xs) ≡ true → (m'.next p ≡ m.next p) × (m'.prev p ≡ m.prev p))
    → Ring m head xs
    → Ring m' head xs
Ring-frame m m' head xs same r = record {
  distinct = r.distinct;
  linked =
      Seg-frame m m' head (xs ++ head ∷ []) (λ p h. (same p (rw init-snoc at h)).0)
        (λ p h. (same p (ground (arith, has-append p xs (head ∷ [])))).1) r.linked;
}

-- A fresh head is the ring of no links.
pub list_head_init-Ring : (head : ℕ) (m : Links) → Ring (list_head_init head m) head []
unfolding list_head_init
list_head_init-Ring head m = record {
  distinct = (refl, tt);
  linked = ((ground arith, ground arith), tt);
}

middle :
    (head : ℕ) (xs ys : List ℕ) → xs ++ following head ys ∷ after head ys ≡ (xs ++ ys) ++ head ∷ []
middle head xs ys =
    ap (λ (zs : List ℕ). xs ++ zs) (following-after head ys) ∙ sym (append_assoc xs ys (head ∷ []))

middle-node :
    (head node : ℕ) (xs ys : List ℕ)
    → xs ++ node ∷ following head ys ∷ after head ys ≡ (xs ++ node ∷ ys) ++ head ∷ []
middle-node head node xs ys =
    ap (λ (zs : List ℕ). xs ++ node ∷ zs) (following-after head ys)
    ∙ sym (append_assoc xs (node ∷ ys) (head ∷ []))

Distinct-insert :
    (head node : ℕ) (xs ys : List ℕ)
    → IsDistinct (head ∷ (xs ++ ys))
    → has node (head ∷ (xs ++ ys)) ≡ false
    → IsDistinct (head ∷ (xs ++ node ∷ ys))
Distinct-insert head node xs ys d fresh =
    let (dx, dy, apart) = Distinct-append xs ys d.1 in
    (
      ground (arith, has-append head xs (node ∷ ys), has-append head xs ys),
      append-Distinct xs (node ∷ ys) dx (ground (arith, has-append node xs ys), dy)
          (λ p h. ground (arith, apart p, has-append node xs ys)),
    )

pub Distinct-delete :
    (head node : ℕ) (xs ys : List ℕ)
    → IsDistinct (head ∷ (xs ++ node ∷ ys))
    → IsDistinct (head ∷ (xs ++ ys)) × (has node (head ∷ (xs ++ ys)) ≡ false)
Distinct-delete head node xs ys d =
    let (dx, dy, apart) = Distinct-append xs (node ∷ ys) d.1 in
    (
      (
        ground (arith, has-append head xs (node ∷ ys), has-append head xs ys),
        append-Distinct xs ys dx dy.1 (λ p h. ground (arith, apart p)),
      ),
      ground (arith, has-append head xs (node ∷ ys), has-append node xs ys, apart node),
    )

-- A link put in between two neighbours of a ring.
pub list_insert-Ring :
    (m : Links) (head : ℕ) (xs ys : List ℕ) (node : ℕ)
    → Ring m head (xs ++ ys)
    → has node (head ∷ (xs ++ ys)) ≡ false
    → Ring (list_insert node (last head xs) (following head ys) m) head (xs ++ node ∷ ys)
list_insert-Ring m head xs ys node r fresh = record {
  distinct = Distinct-insert head node xs ys r.distinct fresh;
  linked =
      subst (Seg (list_insert node (last head xs) (following head ys) m) head)
        (middle-node head node xs ys)
        (insert-Seg m head xs (following head ys) (after head ys) node
          (ring-CanInsert head xs ys node r.distinct fresh)
          (subst (Seg m head) (sym (middle head xs ys)) r.linked));
}

pub first-Ring :
    (m : Links) (head : ℕ) (xs : List ℕ) → Ring m head xs → m.next head ≡ following head xs
first-Ring m head [] r = r.linked.0.0
first-Ring m head (x ∷ xs) r = r.linked.0.0

pub last-Ring : (m : Links) (head : ℕ) (xs : List ℕ) → Ring m head xs → m.prev head ≡ last head xs
last-Ring m head xs r = ((Seg-append m head xs (head ∷ [])).0 r.linked).1.0.1

module _ (m : Links) (head node : ℕ) (xs : List ℕ) (r : Ring m head xs)
    (fresh : has node (head ∷ xs) ≡ false) where
  -- `list_add` puts a link that is in no list in front.
  pub list_add-Ring : Ring (list_add head node m) head (node ∷ xs)
  unfolding list_add
  list_add-Ring = rw (first-Ring m head xs r) (list_insert-Ring m head [] xs node r fresh)

  -- `list_add_tail` puts a link that is in no list behind the others.
  pub list_add_tail-Ring : Ring (list_add_tail head node m) head (xs ++ node ∷ [])
  unfolding list_add_tail
  list_add_tail-Ring =
      rw (last-Ring m head xs r)
        (list_insert-Ring m head xs [] node (rw append-nil r) (rw append-nil fresh))

module _ (m : Links) (head node : ℕ) (xs ys : List ℕ) (r : Ring m head (xs ++ node ∷ ys)) where
  -- `list_del` takes a link out of its list, wherever it stands.
  pub list_del-Ring : Ring (list_del node m) head (xs ++ ys)
  list_del-Ring =
      let (d, fresh) = Distinct-delete head node xs ys r.distinct in
      record {
        distinct = d;
        linked = subst (Seg (list_del node m) head) (middle head xs ys) (
            del-Seg m head xs (following head ys) (after head ys) node
              (ring-CanInsert head xs ys node d fresh)
              (subst (Seg m head) (sym (middle-node head node xs ys)) r.linked));
      }

-- the links next to one of a ring
beside-Ring :
    (m : Links) (head node : ℕ) (xs ys : List ℕ)
    → Ring m head (xs ++ node ∷ ys)
    → (m.next node ≡ following head ys) × (m.prev node ≡ last head xs)
beside-Ring m head node xs ys r =
    let row = subst (Seg m head) (sym (middle-node head node xs ys)) r.linked in
    let s = (Seg-append m head xs (node ∷ following head ys ∷ after head ys)).0 row in
    (s.1.1.0.0, s.1.0.1)

pub next-Ring :
    (m : Links) (head node : ℕ) (xs ys : List ℕ)
    → Ring m head (xs ++ node ∷ ys)
    → m.next node ≡ following head ys
next-Ring m head node xs ys r = (beside-Ring m head node xs ys r).0

pub next-last-Ring :
    (m : Links) (head node : ℕ) (xs ys : List ℕ)
    → Ring m head (xs ++ node ∷ ys)
    → m.next (last head xs) ≡ node
next-last-Ring m head node xs ys r =
    let row = subst (Seg m head) (sym (middle-node head node xs ys)) r.linked in
    ((Seg-append m head xs (node ∷ following head ys ∷ after head ys)).0 row).1.0.0

pub prev-Ring :
    (m : Links) (head node : ℕ) (xs ys : List ℕ)
    → Ring m head (xs ++ node ∷ ys)
    → m.prev node ≡ last head xs
prev-Ring m head node xs ys r = (beside-Ring m head node xs ys r).1

-- a link of a ring is not its own neighbour
pub neighbours-Ring :
    (m : Links) (head node : ℕ) (xs ys : List ℕ)
    → Ring m head (xs ++ node ∷ ys)
    → (m.next node ≢ node) × (m.prev node ≢ node)
neighbours-Ring m head node xs ys r =
    let (d, fresh) = Distinct-delete head node xs ys r.distinct in
    let c = ring-CanInsert head xs ys node d fresh in
    let (to, from) = beside-Ring m head node xs ys r in
    (ground (arith, c.node_second), ground (arith, c.node_first, has-last head xs))

-- `list_is_empty` is true of a head with no links, and of no other.
pub list_is_empty-Ring :
    (m : Links) (head : ℕ) (xs : List ℕ)
    → Ring m head xs
    → list_is_empty head m ≡ (elim xs [ [] ↦ true | _ ∷ _ ↦ false ])
unfolding list_is_empty
list_is_empty-Ring m head [] r = ground arith
list_is_empty-Ring m head (x ∷ xs) r = ground (arith, first-Ring m head (x ∷ xs) r)
