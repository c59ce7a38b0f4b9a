-- ===== src/BTree/Search.antt =====
-- btree.c as a search tree: what `push` keeps, and what `in_order` and `find` see of it.
use Prim.Native.Nat.Ordering.{lt, eq, gt}
use mathlib.Core.List.{Mem, mem-append_left, mem-append_right, mem-cons_self, mem-cons_of_mem}
use demo_class.Common.{
  ◌≡◌, refl, true, false, Option, none, some, List, [], ◌∷◌, ◌++◌, Ordering, arith, if◌then◌else◌,
  inl, inr, Bool-cases,
}
use demo_class.Common.Order.{is_ge, is_le, is_eq, IsOrder}
use demo_class.BTree.{Node, Tree, nil, bnode, in_order, push, find}

-- `P` holds of every node of the tree
abbrev pub All {ℓ} : {A : Type ℓ} → (Node A → Type 0) → Tree A → Type 0
All P nil = Unit
All P (bnode l n r) = All P l × P n × All P r

abbrev pub AllList {ℓ} : {A : Type ℓ} → (Node A → Type 0) → List (Node A) → Type 0
AllList P [] = Unit
AllList P (n ∷ ns) = P n × AllList P ns

All-append {ℓ} :
    {A : Type ℓ} (P : Node A → Type 0) (xs ys : List (Node A))
    → AllList P xs
    → AllList P ys
    → AllList P (xs ++ ys)
All-append P [] ys h k = k
All-append P (x ∷ xs) ys h k = (h.0, All-append P xs ys h.1 k)

All-in_order {ℓ} :
    {A : Type ℓ} (P : Node A → Type 0) (t : Tree A) → All P t → AllList P (in_order t)
unfolding in_order
All-in_order P nil h = tt
All-in_order P (bnode l n r) h =
    All-append P (in_order l) (n ∷ in_order r) (All-in_order P l h.0) (h.1, All-in_order P r h.2)

pub All-mono {ℓ} :
    {A : Type ℓ} (P Q : Node A → Type 0) (t : Tree A)
    → ((n : Node A) → P n → Q n)
    → All P t
    → All Q t
All-mono P Q nil f h = tt
All-mono P Q (bnode l n r) f h = (All-mono P Q l f h.0, f n h.1, All-mono P Q r f h.2)

module _ {ℓ} {A : Type ℓ} (cmp : A → A → Ordering) where
  abbrev pub Below : Node A → Node A → Type 0
  Below n m = cmp m.item n.item ≡ lt

  abbrev pub Above : Node A → Node A → Type 0
  Above n m = is_ge (cmp m.item n.item) ≡ true

  -- smaller nodes on the left, the others on the right
  abbrev pub IsBst : Tree A → Type 0
  IsBst nil = Unit
  IsBst (bnode l n r) = All (Below n) l × All (Above n) r × IsBst l × IsBst r

  abbrev pub IsSorted : List (Node A) → Type 0
  IsSorted [] = Unit
  IsSorted (n ∷ ns) = AllList (λ m. is_le (cmp n.item m.item) ≡ true) ns × IsSorted ns

  -- the reference: before the first node that is greater
  abbrev pub insert : Node A → List (Node A) → List (Node A)
  insert x [] = x ∷ []
  insert x (n ∷ ns) = if is_ge (cmp x.item n.item) then n ∷ insert x ns else x ∷ n ∷ ns

  All-push : (P : Node A → Type 0) (t : Tree A) (x : Node A) → All P t → P x → All P (push cmp t x)
  unfolding push
  All-push P nil x h k = (tt, k, tt)
  All-push P (bnode l n r) x h k = elim (Bool-cases (is_ge (cmp x.item n.item))) [
    | inl e ↦ rw e (h.0, h.1, All-push P r x h.2 k)
    | inr e ↦ rw e (All-push P l x h.0 k, h.1, h.2)
  ]

  -- On any comparison, `push` keeps a search tree a search tree.
  pub push-IsBst : (t : Tree A) (x : Node A) → IsBst t → IsBst (push cmp t x)
  unfolding push
  push-IsBst nil x h = (tt, tt, tt, tt)
  push-IsBst (bnode l n r) x h = elim (Bool-cases (is_ge (cmp x.item n.item))) [
    | inl e ↦ rw e (h.0, All-push (Above n) r x h.1 e, h.2, push-IsBst r x h.3)
    | inr e ↦ rw e (All-push (Below n) l x h.0 (ground arith), h.1, push-IsBst l x h.2, h.3)
  ]

  insert-lt :
      (x n : Node A) (xs ys : List (Node A))
      → is_ge (cmp x.item n.item) ≡ false
      → insert x (xs ++ n ∷ ys) ≡ insert x xs ++ n ∷ ys
  insert-lt x n [] ys e = rw e
  insert-lt x n (m ∷ xs) ys e = elim (Bool-cases (is_ge (cmp x.item m.item))) [
    | inl k ↦ rw (k, insert-lt x n xs ys e)
    | inr k ↦ rw k
  ]

  -- what a search returns after one more node was pushed
  abbrev pub or_new : A → Node A → Option (Node A) → Option (Node A)
  or_new key x (some n) = some n
  or_new key x none = if is_eq (cmp key x.item) then some x else none

  -- no node of the tree matches the key
  abbrev pub NoMatch : A → Tree A → Type 0
  NoMatch key = All (λ n. is_eq (cmp key n.item) ≡ false)

module _ {ℓ} {A : Type ℓ} (cmp : A → A → Ordering) (o : IsOrder cmp) where
  -- a node that `x` is not below lies behind all that are below it
  ge_of_Below :
      (x n m : Node A)
      → is_ge (cmp x.item n.item) ≡ true
      → Below cmp n m
      → is_ge (cmp x.item m.item) ≡ true
  ge_of_Below x n m e b = ground (
    arith,
    o.flips x.item n.item,
    o.flips x.item m.item,
    o.flips m.item n.item,
    o.trans n.item x.item m.item,
  )

  le_of_Below-Above :
      (x n m : Node A) → Below cmp n x → Above cmp n m → is_le (cmp x.item m.item) ≡ true
  le_of_Below-Above x n m b e = ground (arith, o.flips m.item n.item, o.trans x.item n.item m.item)

  insert-ge :
      (x n : Node A) (xs ys : List (Node A))
      → is_ge (cmp x.item n.item) ≡ true
      → AllList (Below cmp n) xs
      → insert cmp x (xs ++ n ∷ ys) ≡ xs ++ n ∷ insert cmp x ys
  insert-ge x n [] ys e h = rw e
  insert-ge x n (m ∷ xs) ys e h = rw (ge_of_Below x n m e h.0, insert-ge x n xs ys e h.1)

  -- The in-order walk after a `push` is the walk before it with the node put in behind the last
  -- node that is not greater: equal nodes stay in the order of arrival.
  pub in_order-push :
      (t : Tree A) (x : Node A) → IsBst cmp t → in_order (push cmp t x) ≡ insert cmp x (in_order t)
  unfolding in_order push
  in_order-push nil x h = refl
  in_order-push (bnode l n r) x h = elim (Bool-cases (is_ge (cmp x.item n.item))) [
    | inl e ↦ rw (
      e,
      in_order-push r x h.3,
      insert-ge x n (in_order l) (in_order r) e (All-in_order (Below cmp n) l h.0),
    )
    | inr e ↦ rw (e, in_order-push l x h.2, insert-lt cmp x n (in_order l) (in_order r) e)
  ]

  IsSorted-append :
      (n : Node A) (xs ys : List (Node A))
      → AllList (Below cmp n) xs
      → AllList (Above cmp n) ys
      → IsSorted cmp xs
      → IsSorted cmp ys
      → IsSorted cmp (xs ++ n ∷ ys)
  IsSorted-append n [] ys h k s t = (above ys k, t)
    where
      above :
          (ys : List (Node A))
          → AllList (Above cmp n) ys
          → AllList (λ m. is_le (cmp n.item m.item) ≡ true) ys
      above [] k = tt
      above (m ∷ ys) k = (ground (arith, o.flips m.item n.item), above ys k.1)
  IsSorted-append n (x ∷ xs) ys h k s t =
      (All-append _ xs (n ∷ ys) s.0 (ground arith, above ys k), IsSorted-append n xs ys h.1 k s.1 t)
    where
      above :
          (ys : List (Node A))
          → AllList (Above cmp n) ys
          → AllList (λ m. is_le (cmp x.item m.item) ≡ true) ys
      above [] k = tt
      above (m ∷ ys) k = (le_of_Below-Above x n m h.0 k.0, above ys k.1)

  -- The in-order walk of a search tree is in ascending order.
  pub in_order-IsSorted : (t : Tree A) → IsBst cmp t → IsSorted cmp (in_order t)
  unfolding in_order
  in_order-IsSorted nil h = tt
  in_order-IsSorted (bnode l n r) h =
      IsSorted-append n (in_order l) (in_order r) (All-in_order (Below cmp n) l h.0)
        (All-in_order (Above cmp n) r h.1) (in_order-IsSorted l h.2) (in_order-IsSorted r h.3)

  -- A search after a `push` finds what it found before, and the new node if there was nothing
  -- and the node matches the key.
  pub find-push :
      (t : Tree A) (x : Node A) (key : A)
      → find cmp (push cmp t x) key ≡ or_new cmp key x (find cmp t key)
  unfolding find push
  find-push nil x key = ground arith
  find-push (bnode l n r) x key = ground (
    arith,
    find-push l x key,
    find-push r x key,
    o.flips x.item n.item,
    o.flips x.item key,
    o.flips key x.item,
    o.flips key n.item,
    o.trans n.item x.item key,
    o.trans key x.item n.item,
    o.trans x.item key n.item,
  )

  miss-Below :
      (key : A) (n : Node A) (t : Tree A)
      → is_ge (cmp key n.item) ≡ true
      → All (Below cmp n) t
      → NoMatch cmp key t
  miss-Below key n t e = All-mono _ _ t λ m b. ground (
    arith,
    o.flips key m.item,
    o.flips key n.item,
    o.trans n.item key m.item,
    o.flips m.item n.item,
  )

  miss-Above :
      (key : A) (n : Node A) (t : Tree A)
      → cmp key n.item ≡ lt
      → All (Above cmp n) t
      → NoMatch cmp key t
  miss-Above key n t e = All-mono _ _ t λ m b. ground (
    arith,
    o.flips key m.item,
    o.flips key n.item,
    o.trans n.item m.item key,
    o.flips m.item n.item,
  )

  -- In a search tree a search fails only if no node matches the key.
  pub find_complete :
      (t : Tree A) (key : A) → IsBst cmp t → find cmp t key ≡ none → NoMatch cmp key t
  unfolding find
  find_complete nil key h e = tt
  find_complete (bnode l n r) key h e =
      go (cmp key n.item) refl e (find_complete l key h.2) (find_complete r key h.3)
    where
      go :
          (c : Ordering)
          → cmp key n.item ≡ c
          → elim c [ eq ↦ some n | lt ↦ find cmp l key | gt ↦ find cmp r key ] ≡ none
          → (find cmp l key ≡ none → NoMatch cmp key l)
          → (find cmp r key ≡ none → NoMatch cmp key r)
          → NoMatch cmp key (bnode l n r)
      go eq c e left right = absurd (ground arith)
      go lt c e left right = (left e, rw c, miss-Above key n r c h.1)
      go gt c e left right = (miss-Below key n l (rw c) h.0, rw c, right e)

module _ {ℓ} {A : Type ℓ} (cmp : A → A → Ordering) where
  -- What a search finds is a node of the tree that matches the key.
  pub find_sound :
      (t : Tree A) (key : A) (n : Node A)
      → find cmp t key ≡ some n
      → Mem n (in_order t) × (cmp key n.item ≡ eq)
  unfolding find in_order
  find_sound nil key n e = cc
  find_sound (bnode l m r) key n e =
      go (cmp key m.item) refl e (find_sound l key n) (find_sound r key n)
    where
      Result : Tree A → Type ℓ
      Result t = Mem n (in_order t) × (cmp key n.item ≡ eq)

      go :
          (c : Ordering)
          → cmp key m.item ≡ c
          → elim c [ eq ↦ some m | lt ↦ find cmp l key | gt ↦ find cmp r key ] ≡ some n
          → (find cmp l key ≡ some n → Result l)
          → (find cmp r key ≡ some n → Result r)
          → Result (bnode l m r)
      go eq c e left right =
          let same : m ≡ n = cc in rw (← same) (mem-append_right (in_order l) mem-cons_self, c)
      go lt c e left right = (mem-append_left _ (left e).0, (left e).1)
      go gt c e left right =
          (mem-append_right (in_order l) (mem-cons_of_mem m (right e).0), (right e).1)
