-- ===== src/Stack.antt =====
-- 01DataStruct/02Dlist/stack/stack.c (03Calc and 06Btree hold copies) and 06Btree/queue.c: a stack and
-- a queue over dlist.c. An operation that returns a code returns it with what it wrote to `dest`.
pub mod Laws
pub mod Life
pub mod History
mod Tests
use demo_class.Common.{ℕ, Bool, Option, none, some, ◌==◌, if◌then◌else◌}
use demo_class.Common.Int.{ℤ, pos, negsuc}
use demo_class.DList.{
  Memory, dlist_is_empty, dlist_add, dlist_add_tail, dlist_del, dlist_init, dlist_destroy, alloc,
  free, null,
}

module _ {ℓ} {D : Type ℓ} where
  unfoldable pub stack_is_empty : ℕ → Memory D → Bool
  unfolding dlist_is_empty
  stack_is_empty head h = dlist_is_empty head h

  -- `node` is what `malloc` returns to `dlist_add`, whose failure `stack_push` does not see
  unfoldable pub stack_push : ℕ → ℕ → D → Memory D → ℤ × Memory D
  unfolding dlist_add
  stack_push node head d h = (pos 0, dlist_add node head d h)

  unfoldable pub stack_top : ℕ → Memory D → ℤ × Option D
  unfolding stack_is_empty
  stack_top head h =
      if stack_is_empty head h then (negsuc 0, none) else (pos 0, h.priv (h.links.next head))

  unfoldable pub stack_pop : ℕ → Memory D → ℤ × Option D × Memory D
  unfolding stack_is_empty dlist_del
  stack_pop head h =
      if stack_is_empty head h
      then (negsuc 0, none, h)
      else (pos 0, h.priv (h.links.next head), dlist_del (h.links.next head) h)

  unfoldable pub queue_is_empty : ℕ → Memory D → Bool
  unfolding dlist_is_empty
  queue_is_empty head h = dlist_is_empty head h

  unfoldable pub queue_push : ℕ → ℕ → D → Memory D → ℤ × Memory D
  unfolding dlist_add_tail
  queue_push node head d h = (pos 0, dlist_add_tail node head d h)

  unfoldable pub queue_top : ℕ → Memory D → ℤ × Option D
  unfolding queue_is_empty
  queue_top head h =
      if queue_is_empty head h then (negsuc 0, none) else (pos 0, h.priv (h.links.next head))

  unfoldable pub queue_pop : ℕ → Memory D → ℤ × Option D × Memory D
  unfolding queue_is_empty dlist_del
  queue_pop head h =
      if queue_is_empty head h
      then (negsuc 0, none, h)
      else (pos 0, h.priv (h.links.next head), dlist_del (h.links.next head) h)

  -- `info` and `head` are what `malloc` returns to `stack_init` and to `dlist_init`, whose failure
  -- `stack_init` does not see
  unfoldable pub stack_init : ℕ → ℕ → Memory D → ℤ × Memory D
  unfolding dlist_init
  stack_init info head h =
      if info == null
      then (negsuc 0, h)
      else (pos 0, elim (dlist_init head (alloc info h)) [ none ↦ alloc info h | some h' ↦ h' ])

  unfoldable pub stack_destroy : ℕ → ℕ → ℕ → Memory D → Option (Memory D)
  unfolding dlist_destroy
  stack_destroy k info head h = elim (dlist_destroy k head h) [
    | none ↦ none
    | some h' ↦ some (free info h')
  ]

  unfoldable pub queue_init : ℕ → ℕ → Memory D → ℤ × Memory D
  unfolding dlist_init
  queue_init info head h =
      if info == null
      then (negsuc 0, h)
      else (pos 0, elim (dlist_init head (alloc info h)) [ none ↦ alloc info h | some h' ↦ h' ])

  unfoldable pub queue_destroy : ℕ → ℕ → ℕ → Memory D → Option (Memory D)
  unfolding dlist_destroy
  queue_destroy k info head h = elim (dlist_destroy k head h) [
    | none ↦ none
    | some h' ↦ some (free info h')
  ]
