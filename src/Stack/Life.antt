-- ===== src/Stack/Life.antt =====
-- A stack and a queue from `stack_init` and `queue_init` to their end.
use demo_class.Common.{
  ℕ, ◌≡◌, ◌≢◌, refl, false, some, List, [], ◌∷◌, ◌<◌, arith, length, ◌==◌, if◌then◌else◌,
}
use demo_class.Common.Int.{pos}
use demo_class.Links.Seg.{has}
use demo_class.DList.{Memory, null, alloc, free}
use demo_class.DList.Laws.{Rep, dlist_init-Rep}
use demo_class.DList.Removal.{dlist_destroy-frees}
use demo_class.Stack.{stack_init, stack_destroy, queue_init, queue_destroy}

module _ {ℓ} {D : Type ℓ} (info head : ℕ) (h : Memory D) where
  -- `stack_init` makes an empty stack and returns 0, given both addresses from `malloc`.
  pub stack_init-Rep :
      info ≢ null
      → head ≢ null
      → ((stack_init info head h).0 ≡ pos 0) × Rep (stack_init info head h).1 head [] []
  unfolding stack_init
  stack_init-Rep given ne =
      let some_info : (info == null) ≡ false = ground arith in
      let (h', run, r) = dlist_init-Rep head (alloc info h) ne in rw (some_info, run) (refl, r)

  -- `queue_init` does the same.
  pub queue_init-Rep :
      info ≢ null
      → head ≢ null
      → ((queue_init info head h).0 ≡ pos 0) × Rep (queue_init info head h).1 head [] []
  unfolding queue_init stack_init
  queue_init-Rep = stack_init-Rep

  module _ (k : ℕ) {xs : List ℕ} {ds : List D} (r : Rep h head xs ds) (fuel : length xs < k) where
    -- `stack_destroy` ends, and frees `info`, the head and every node, and nothing else.
    pub stack_destroy-frees :
        (h' : Memory D) × (stack_destroy k info head h ≡ some h')
        × ((p : ℕ) → h'.live p ≡ (if has p (info ∷ head ∷ xs) then false else h.live p))
    unfolding stack_destroy
    stack_destroy-frees =
        let (h', run, dead) = dlist_destroy-frees h head k xs r.ring fuel in
        rw (run, stack_destroy) (free info h', refl, λ p. ground (arith, dead p))

    -- `queue_destroy` does the same.
    pub queue_destroy-frees :
        (h' : Memory D) × (queue_destroy k info head h ≡ some h')
        × ((p : ℕ) → h'.live p ≡ (if has p (info ∷ head ∷ xs) then false else h.live p))
    unfolding queue_destroy stack_destroy
    queue_destroy-frees = stack_destroy-frees
