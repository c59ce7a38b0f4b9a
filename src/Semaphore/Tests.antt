-- ===== src/Semaphore/Tests.antt =====
-- The child is interrupted in its P; then the parent does its V, and the child passes.
use demo_class.Common.{ℕ, ◌<◌, ◌≡◌, ◌⊎◌, refl}
use demo_class.Semaphore.{
  child_waits, child_posts, child_ended, parent_waits, parent_ended, System, init, child_passes,
  parent_gives, child_in_p, Run, start, next, interrupted,
}
use demo_class.Semaphore.Rendezvous.{GoesOn, Run-rendezvous, Run-finishes}

abbrev signalled : Run init 0 init
signalled = interrupted start (child_in_p refl)

Run-rendezvous_example : init.child ≡ child_waits
Run-rendezvous_example = Run-rendezvous signalled refl

abbrev passed : System
passed = record init {
  val = 0;
  child = child_posts;
  child_p = 1;
  parent = parent_waits;
  parent_v = 1;
}

abbrev steps : ℕ
steps = 2

abbrev two_steps : Run init 2 passed
two_steps = next (next signalled (parent_gives refl)) (child_passes 0 refl refl)

Run-finishes_example :
    ((steps ≡ 6) × (passed.child ≡ child_ended) × (passed.parent ≡ parent_ended) × (passed.val ≡ 0))
    ⊎ ((steps < 6) × GoesOn passed)
Run-finishes_example = Run-finishes two_steps
