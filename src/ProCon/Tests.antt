-- ===== src/ProCon/Tests.antt =====
-- The producer has been interrupted with the mutex.
use demo_class.Common.{◌+◌, ◌≤◌, ◌≡◌, refl, false, ◌&&◌}
use demo_class.ProCon.{
  System, producer, pro_locked, con_idle, rounds, init, Reach, here, later, pro_locks,
}
use demo_class.ProCon.Invariant.{pro_holds, con_holds, Reach-exclusion}

abbrev locked : System
locked = record init { pro = pro_locked; mutex = producer }

locked-Reach : Reach init locked
locked-Reach = later here (pro_locks 99 refl refl refl)

Reach-exclusion_example :
    ((pro_holds pro_locked && con_holds con_idle) ≡ false)
    × (locked.mutex ≡ producer)
    × (3 + rounds ≤ rounds + 3 + 0)
Reach-exclusion_example = Reach-exclusion locked locked-Reach
