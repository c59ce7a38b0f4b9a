-- ===== src/BTree.antt =====
-- 01DataStruct/06Btree/btree.c and btree.h: a binary search tree of intrusive nodes.
-- A node is its address with the record that embeds it; a subtree is what a child pointer reaches,
-- `nil` for NULL. `todo` callbacks are modelled by the list of the nodes that they are called on.
pub mod Search
pub mod Distinct
pub mod Loops
pub mod Levels
mod Tests
use demo_class.Common.{
  ℕ, zero, suc, ◌+◌, ◌*◌, Bool, true, false, not, ◌&&◌, Option, none, some, List, [], ◌∷◌, ◌++◌,
  reverse, Ordering, ltb, ◌==◌, if◌then◌else◌,
}
use demo_class.Common.Order.{is_ge}

-- what a pointer to a node leads to: the address, and the record around the node
pub record Node {ℓ} (A : Type ℓ) : Type ℓ where
  pub addr : ℕ
  pub item : A

pub data Tree {ℓ} (A : Type ℓ) : Type ℓ where
  nil : Tree A
  bnode : Tree A → Node A → Tree A → Tree A

-- a pointer into the tree, compared by its address; NULL is 0
pub ptr {ℓ} : {A : Type ℓ} → Tree A → ℕ
ptr nil = 0
ptr (bnode l n r) = n.addr

pub is_null {ℓ} : {A : Type ℓ} → Tree A → Bool
is_null nil = true
is_null (bnode l n r) = false

module _ {ℓ} {A : Type ℓ} where
  pub size : Tree A → ℕ
  size nil = 0
  size (bnode l n r) = suc (size l + size r)

  pub pre_order : Tree A → List (Node A)
  pre_order nil = []
  pre_order (bnode l n r) = n ∷ (pre_order l ++ pre_order r)

  pub in_order : Tree A → List (Node A)
  in_order nil = []
  in_order (bnode l n r) = in_order l ++ n ∷ in_order r

  pub post_order : Tree A → List (Node A)
  post_order nil = []
  post_order (bnode l n r) = post_order l ++ (post_order r ++ n ∷ [])

  pub get_depth : Tree A → ℕ
  get_depth nil = 0
  get_depth (bnode l n r) =
      let ldepth = get_depth l in
      let rdepth = get_depth r in if ltb rdepth ldepth then ldepth + 1 else rdepth + 1

  -- `push` walks down to the NULL link where the node belongs.
  pub push : (A → A → Ordering) → Tree A → Node A → Tree A
  push cmp nil x = bnode nil x nil
  push cmp (bnode l n r) x =
      let right = push cmp r x in
      let left = push cmp l x in
      if is_ge (cmp x.item n.item) then bnode l n right else bnode left n r

  pub find : (A → A → Ordering) → Tree A → A → Option (Node A)
  find cmp nil key = none
  find cmp (bnode l n r) key = elim (cmp key n.item) [
    | Ordering.eq ↦ some n
    | Ordering.lt ↦ find cmp l key
    | Ordering.gt ↦ find cmp r key
  ]

-- The walks that keep a stack or a queue of node pointers in place of the recursion. Each loop runs
-- on fuel, and `none` says that the fuel was too little; a stack is the list of the pushed pointers,
-- its top first, and `todo`'s calls are collected in `out`, the last first.
abbrev pub Trace {ℓ} : Type ℓ → Type ℓ
Trace A = Option (List (Node A))

module _ {ℓ} {A : Type ℓ} where
  pub pre_order_loop : ℕ → List (Tree A) → Tree A → List (Node A) → Trace A
  pre_order_loop zero stack cur out = none
  pre_order_loop (suc k) stack (bnode l n r) out =
      pre_order_loop k (bnode l n r ∷ stack) l (n ∷ out)
  pre_order_loop (suc k) [] nil out = some (reverse out)
  pre_order_loop (suc k) (nil ∷ stack) nil out = none
  pre_order_loop (suc k) (bnode l n r ∷ stack) nil out = pre_order_loop k stack r out

  pub pre_order_norecur : Tree A → Trace A
  unfolding pre_order_loop size
  pre_order_norecur t = pre_order_loop (2 * size t + 1) [] t []

  pub in_order_loop : ℕ → List (Tree A) → Tree A → List (Node A) → Trace A
  in_order_loop zero stack cur out = none
  in_order_loop (suc k) stack (bnode l n r) out = in_order_loop k (bnode l n r ∷ stack) l out
  in_order_loop (suc k) [] nil out = some (reverse out)
  in_order_loop (suc k) (nil ∷ stack) nil out = none
  in_order_loop (suc k) (bnode l n r ∷ stack) nil out = in_order_loop k stack r (n ∷ out)

  pub in_order_norecur : Tree A → Trace A
  unfolding in_order_loop size
  in_order_norecur t = in_order_loop (2 * size t + 1) [] t []

  -- `prev` is the address of the node that was visited last, 0 at the start
  pub post_order_loop : ℕ → List (Tree A) → Tree A → ℕ → List (Node A) → Trace A
  post_order_loop zero stack cur prev out = none
  post_order_loop (suc k) stack (bnode l n r) prev out =
      post_order_loop k (bnode l n r ∷ stack) l prev out
  post_order_loop (suc k) [] nil prev out = some (reverse out)
  post_order_loop (suc k) (nil ∷ stack) nil prev out = none
  post_order_loop (suc k) (bnode l n r ∷ stack) nil prev out =
      let to_right = post_order_loop k (bnode l n r ∷ stack) r prev out in
      let visit = post_order_loop k stack nil n.addr (n ∷ out) in
      if not (is_null r) && not (ptr r == prev) then to_right else visit

  pub post_order_norecur : Tree A → Trace A
  unfolding post_order_loop size
  post_order_norecur t = post_order_loop (3 * size t + 1) [] t 0 []

  -- `if (child != NULL) queue->push(queue, &child)`
  pub enqueue : List (Tree A) → Tree A → List (Tree A)
  enqueue queue nil = queue
  enqueue queue (bnode l n r) = queue ++ bnode l n r ∷ []

  -- a NULL in the queue makes `todo` and `cur->lchild` run on NULL: no result
  pub level_order_loop : ℕ → List (Tree A) → List (Node A) → Trace A
  level_order_loop zero queue out = none
  level_order_loop (suc k) [] out = some (reverse out)
  level_order_loop (suc k) (nil ∷ queue) out = none
  level_order_loop (suc k) (bnode l n r ∷ queue) out =
      level_order_loop k (enqueue (enqueue queue l) r) (n ∷ out)

  pub level_order : Tree A → Trace A
  unfolding level_order_loop size enqueue
  level_order t = level_order_loop (size t + 1) (t ∷ []) []
