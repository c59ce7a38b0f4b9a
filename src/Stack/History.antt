-- ===== src/Stack/History.antt =====
-- What a client sees of a stack or a queue, over any sequence of calls.
use demo_class.Common.{ℕ, ◌≡◌, ◌≢◌, refl, false, Option, none, List, [], ◌∷◌, ◌++◌}
use demo_class.Common.Int.{ℤ, pos}
use demo_class.DList.{Memory, null}
use demo_class.DList.Laws.{Rep}
use demo_class.Stack.{stack_push, stack_pop, queue_push, queue_pop}
use demo_class.Stack.Laws.{
  front, rest, stack_pop-Popped, stack_push-Rep, queue_pop-Popped, queue_push-Rep,
}

-- a call; a push with the node that `malloc` returns in it
pub data Call {ℓ} (D : Type ℓ) : Type ℓ where
  push : ℕ → D → Call D
  pop : Call D

module _ {ℓ} {D : Type ℓ} where
  -- what each call returns, in order
  pub run_stack : ℕ → List (Call D) → Memory D → List (ℤ × Option D)
  run_stack head [] h = []
  run_stack head (push node d ∷ cs) h =
      ((stack_push node head d h).0, none) ∷ run_stack head cs (stack_push node head d h).1
  run_stack head (pop ∷ cs) h =
      ((stack_pop head h).0, (stack_pop head h).1) ∷ run_stack head cs (stack_pop head h).2

  pub run_queue : ℕ → List (Call D) → Memory D → List (ℤ × Option D)
  run_queue head [] h = []
  run_queue head (push node d ∷ cs) h =
      ((queue_push node head d h).0, none) ∷ run_queue head cs (queue_push node head d h).1
  run_queue head (pop ∷ cs) h =
      ((queue_pop head h).0, (queue_pop head h).1) ∷ run_queue head cs (queue_pop head h).2

  -- every push gets a node that is not in use, never NULL
  abbrev pub StackFresh : ℕ → List (Call D) → Memory D → Type 0
  StackFresh head [] h = Unit
  StackFresh head (push node d ∷ cs) h =
      (node ≢ null) × (h.live node ≡ false) × StackFresh head cs (stack_push node head d h).1
  StackFresh head (pop ∷ cs) h = StackFresh head cs (stack_pop head h).2

  abbrev pub QueueFresh : ℕ → List (Call D) → Memory D → Type 0
  QueueFresh head [] h = Unit
  QueueFresh head (push node d ∷ cs) h =
      (node ≢ null) × (h.live node ≡ false) × QueueFresh head cs (queue_push node head d h).1
  QueueFresh head (pop ∷ cs) h = QueueFresh head cs (queue_pop head h).2

  -- the same calls on a list: last in, first out, and first in, first out
  abbrev pub lifo : List (Call D) → List D → List (ℤ × Option D)
  lifo [] ds = []
  lifo (push node d ∷ cs) ds = (pos 0, none) ∷ lifo cs (d ∷ ds)
  lifo (pop ∷ cs) ds = front ds ∷ lifo cs (rest ds)

  abbrev pub fifo : List (Call D) → List D → List (ℤ × Option D)
  fifo [] ds = []
  fifo (push node d ∷ cs) ds = (pos 0, none) ∷ fifo cs (ds ++ d ∷ [])
  fifo (pop ∷ cs) ds = front ds ∷ fifo cs (rest ds)

  -- Over any sequence of pushes and pops stack.c returns what a last-in first-out list returns, as
  -- long as `malloc` gives nodes that are not in use.
  pub run_stack-lifo :
      (cs : List (Call D)) (head : ℕ) (h : Memory D) (xs : List ℕ) (ds : List D)
      → Rep h head xs ds
      → StackFresh head cs h
      → run_stack head cs h ≡ lifo cs ds
  unfolding run_stack
  run_stack-lifo [] head h xs ds r f = refl
  run_stack-lifo (push node d ∷ cs) head h xs ds r f =
      let (code, pushed, failed) = stack_push-Rep h head r node d f.1 in
      rw (
        code,
        run_stack-lifo cs head (stack_push node head d h).1 (node ∷ xs) (d ∷ ds) (pushed f.0) f.2,
      )
  run_stack-lifo (pop ∷ cs) head h xs ds r f =
      let (out, left) = stack_pop-Popped h head r in
      rw (out, run_stack-lifo cs head (stack_pop head h).2 (rest xs) (rest ds) left f)

  -- Over any sequence of pushes and pops queue.c returns what a first-in first-out list returns, as
  -- long as `malloc` gives nodes that are not in use.
  pub run_queue-fifo :
      (cs : List (Call D)) (head : ℕ) (h : Memory D) (xs : List ℕ) (ds : List D)
      → Rep h head xs ds
      → QueueFresh head cs h
      → run_queue head cs h ≡ fifo cs ds
  unfolding run_queue
  run_queue-fifo [] head h xs ds r f = refl
  run_queue-fifo (push node d ∷ cs) head h xs ds r f =
      let (code, pushed) = queue_push-Rep h head r node d f.0 f.1 in
      rw (
        code,
        run_queue-fifo cs head (queue_push node head d h).1 (xs ++ node ∷ []) (ds ++ d ∷ []) pushed
            f.2,
      )
  run_queue-fifo (pop ∷ cs) head h xs ds r f =
      let (out, left) = queue_pop-Popped h head r in
      rw (out, run_queue-fifo cs head (queue_pop head h).2 (rest xs) (rest ds) left f)
