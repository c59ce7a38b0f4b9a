-- ===== src/Stack/Laws.antt =====
-- stack.c and queue.c against the list of what was pushed and not popped.
use demo_class.Common.{
  ℕ, ◌≡◌, ◌≢◌, refl, ap, ◌∙◌, true, false, Option, none, some, List, [], ◌∷◌, ◌++◌, arith, ◌==◌,
}
use demo_class.Common.Int.{ℤ, pos, negsuc}
use demo_class.Links.Ring.{Ring, list_is_empty-Ring, first-Ring}
use demo_class.DList.{Memory, null}
use demo_class.DList.Laws.{Holds, nil, cons, Rep, dlist_add-Rep, dlist_add_tail-Rep}
use demo_class.DList.Removal.{dlist_del-Rep}
use demo_class.Stack.{stack_push, stack_top, stack_pop, queue_push, queue_top, queue_pop}

-- what `top` gives, and what `pop` leaves
abbrev pub front {ℓ} : {D : Type ℓ} → List D → ℤ × Option D
front [] = (negsuc 0, none)
front (d ∷ ds) = (pos 0, some d)

abbrev pub rest {ℓ} : {E : Type ℓ} → List E → List E
rest [] = []
rest (d ∷ ds) = ds

module _ {ℓ} {D : Type ℓ} (h : Memory D) (head : ℕ) where
  -- the outcome of a `pop`: what `top` gives; the list without its first value; and the first node
  -- is freed, where there is one
  abbrev pub Popped : List ℕ → List D → ℤ × Option D × Memory D → Type ℓ
  Popped xs ds r = (◌≡◌ {A = ℤ × Option D} (r.0, r.1) (front ds)) × Rep r.2 head (rest xs) (rest ds)

  top_of :
      {xs : List ℕ} {ds : List D}
      → Ring h.links head xs
      → Holds h xs ds
      → stack_top head h ≡ front ds
  unfolding stack_top
  top_of ring nil = rw (list_is_empty-Ring h.links head [] ring)
  top_of ring (cons {x} {xs} l p s) = rw (list_is_empty-Ring h.links head (x ∷ xs) ring) (
      ap (λ (q : ℕ). (pos 0, h.priv q)) (first-Ring h.links head (x ∷ xs) ring)
      ∙ ap (λ (o : Option D). (pos 0, o)) p)

  pop_of :
      {xs : List ℕ} {ds : List D}
      → Rep h head xs ds
      → Holds h xs ds
      → Popped xs ds (stack_pop head h)
  unfolding stack_pop
  pop_of r nil = rw (list_is_empty-Ring h.links head [] r.ring) (refl, r)
  pop_of r (cons {x} {d} {xs} {ds} l p s) =
      rw (list_is_empty-Ring h.links head (x ∷ xs) r.ring, first-Ring h.links head (x ∷ xs) r.ring)
        (ap (λ (o : Option D). (pos 0, o)) p, (dlist_del-Rep h head x [] xs [] ds d refl r).0)

  module _ {xs : List ℕ} {ds : List D} (r : Rep h head xs ds) where
    -- `stack_top` gives the value that was pushed last, or -1 if there is none.
    pub stack_top-front : stack_top head h ≡ front ds
    stack_top-front = top_of r.ring r.holds

    -- `stack_pop` gives what `stack_top` gives and takes it off; with nothing to take it leaves the
    -- stack empty.
    pub stack_pop-Popped : Popped xs ds (stack_pop head h)
    stack_pop-Popped = pop_of r r.holds

    -- A value pushed is on top, given a node from `malloc`; without one the stack stays as it is. The
    -- code is 0 in both cases.
    pub stack_push-Rep :
        (node : ℕ) (d : D)
        → h.live node ≡ false
        → ((stack_push node head d h).0 ≡ pos 0)
          × (node ≢ null → Rep (stack_push node head d h).1 head (node ∷ xs) (d ∷ ds))
          × (node ≡ null → Rep (stack_push node head d h).1 head xs ds)
    unfolding stack_push
    stack_push-Rep node d fresh = (
      refl,
      λ given. dlist_add-Rep node head d h given fresh r,
      λ e. let failed : (node == null) ≡ true = ground arith in rw failed r,
    )

    -- `queue_top` gives the value that has waited longest.
    pub queue_top-front : queue_top head h ≡ front ds
    unfolding queue_top stack_top
    queue_top-front = top_of r.ring r.holds

    pub queue_pop-Popped : Popped xs ds (queue_pop head h)
    unfolding queue_pop stack_pop
    queue_pop-Popped = pop_of r r.holds

    pub queue_push-Rep :
        (node : ℕ) (d : D)
        → node ≢ null
        → h.live node ≡ false
        → ((queue_push node head d h).0 ≡ pos 0)
          × Rep (queue_push node head d h).1 head (xs ++ node ∷ []) (ds ++ d ∷ [])
    unfolding queue_push
    queue_push-Rep node d given fresh = (refl, dlist_add_tail-Rep node head d h given fresh r)
