-- ===== src/ProCon/Invariant.antt =====
-- 03NetPro_thread/05Pthread/06test_pro_con.c: what holds whenever the two threads are interrupted.
use demo_class.Common.{ℕ, ◌+◌, ◌≤◌, ◌≡◌, refl, Bool, true, false, ◌&&◌, arith, if◌then◌else◌}
use demo_class.ProCon.{
  Pro, pro_idle, pro_locked, pro_added, pro_signals, pro_ended, Con, con_idle, con_tests, con_waits,
  con_woken, con_takes, con_ended, nobody, producer, consumer, System, rounds, init, Step,
  pro_locks, pro_adds, pro_unlocks, pro_signaled, pro_ends, con_locks, con_sleeps, con_wakes,
  con_relocks, con_goes_on, con_takes_one, con_unlocks, con_ends, Reach, here, later,
}

-- the thread has the mutex
abbrev pub pro_holds : Pro → Bool
pro_holds pro_idle = false
pro_holds pro_locked = true
pro_holds pro_added = true
pro_holds pro_signals = false
pro_holds pro_ended = false

abbrev pub con_holds : Con → Bool
con_holds con_idle = false
con_holds con_tests = true
con_holds con_waits = false
con_holds con_woken = false
con_holds con_takes = true
con_holds con_ended = false

-- 1 where the producer has added in a round that still counts as left
abbrev pub in_round : Pro → ℕ
in_round pro_idle = 0
in_round pro_locked = 0
in_round pro_added = 1
in_round pro_signals = 1
in_round pro_ended = 0

-- 1 where the consumer is taking, in a round that still counts as left
abbrev pub taking : Con → ℕ
taking con_idle = 0
taking con_tests = 0
taking con_waits = 0
taking con_woken = 0
taking con_takes = 1
taking con_ended = 0

pub record Inv (s : System) : Type 0 where
  pub owner :
      s.mutex ≡ (if pro_holds s.pro then producer else if con_holds s.con then consumer else nobody)
  pub apart : (pro_holds s.pro && con_holds s.con) ≡ false
  pub counted : s.stock + s.pro_left ≤ s.con_left + 3 + in_round s.pro
  pub takes : taking s.con + s.pro_left ≤ s.con_left + 3 + in_round s.pro
  pub pro_few : s.pro_left ≤ rounds
  pub con_few : s.con_left ≤ rounds

Inv-init : Inv init
Inv-init = record {
  owner = refl;
  apart = refl;
  counted = omega arith;
  takes = omega arith;
  pro_few = omega arith;
  con_few = omega arith;
}

Step-Inv : {s t : System} → Step s t → Inv s → Inv t
Step-Inv {s} (pro_locks k e l free) v = ground arith
Step-Inv {s} (pro_adds e) v = ground arith
Step-Inv {s} (pro_unlocks e) v = ground arith
Step-Inv {s} (pro_signaled k e l) v = ground arith
Step-Inv {s} (pro_ends e l) v = ground arith
Step-Inv {s} (con_locks k e l free) v = ground arith
Step-Inv {s} (con_sleeps e l) v = ground arith
Step-Inv {s} (con_wakes e) v = ground arith
Step-Inv {s} (con_relocks e free) v = ground arith
Step-Inv {s} (con_goes_on k e l) v = ground arith
Step-Inv {s} (con_takes_one k e l) v = ground arith
Step-Inv {s} (con_unlocks k e z l) v = ground arith
Step-Inv {s} (con_ends e l) v = ground arith

Reach-Inv : {s : System} → Reach init s → Inv s
Reach-Inv here = Inv-init
Reach-Inv (later r st) = Step-Inv st (Reach-Inv r)

-- Whenever the threads are interrupted, one of them has the mutex at most, and the mutex knows which; and
-- of the 3 and 100 that `data` ever gets, each round that the consumer has ended has taken one at least.
pub Reach-exclusion :
    (s : System)
    → Reach init s
    → ((pro_holds s.pro && con_holds s.con) ≡ false)
      × (s.mutex
          ≡ (if pro_holds s.pro then producer else if con_holds s.con then consumer else nobody))
      × (s.stock + s.pro_left ≤ s.con_left + 3 + in_round s.pro)
Reach-exclusion s r = let v = Reach-Inv r in (v.apart, v.owner, v.counted)
