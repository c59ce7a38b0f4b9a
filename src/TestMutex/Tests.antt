-- ===== src/TestMutex/Tests.antt =====
-- Two steps of the first thread.
use demo_class.Common.{ℕ, ◌<◌, ◌≡◌, ◌⊎◌, refl}
use demo_class.TestMutex.{
  demo_ended, demo2_ended, demo_counted, by_demo, System, init, demo_locks, demo_counts, Run, start,
  next,
}
use demo_class.TestMutex.Count.{GoesOn, Run-ends}

abbrev counted : System
counted = record init { demo = demo_counted 1; mutex = by_demo }

abbrev two_steps : Run init 2 counted
two_steps = next (next start (demo_locks 9 refl refl refl)) (demo_counts refl)

abbrev steps : ℕ
steps = 2

Run-ends_example :
    ((steps ≡ 72)
      × (counted.demo ≡ demo_ended)
      × (counted.demo2 ≡ demo2_ended)
      × (counted.i_gloabl_n ≡ 20))
    ⊎ ((steps < 72) × GoesOn counted)
Run-ends_example = Run-ends two_steps
