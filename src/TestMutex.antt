-- ===== src/TestMutex.antt =====
-- 03NetPro_thread/05Pthread/04test_mutex.c: two threads that count in `i_gloabl_n` under a mutex, ten rounds
-- each. A step is what one thread does between two points where the other may be scheduled.
pub mod Count
mod Tests
use demo_class.Common.{ℕ, zero, suc, ◌+◌, ◌<◌, ◌≡◌}

-- where `thr_demo` stands: before the lock, with the lock, with `t` one above what it read, behind the store,
-- and behind the loop
pub data Demo : Type 0 where
  demo_idle : Demo
  demo_locked : Demo
  demo_counted : ℕ → Demo
  demo_stored : Demo
  demo_ended : Demo

-- where `thr_demo2` stands: the same, but it counts in place
pub data Demo2 : Type 0 where
  demo2_idle : Demo2
  demo2_locked : Demo2
  demo2_counted : Demo2
  demo2_ended : Demo2

pub data Owner : Type 0 where
  nobody : Owner
  by_demo : Owner
  by_demo2 : Owner

-- the counter, the mutex, and the two threads with the rounds that they have left
pub record System : Type 0 where
  pub i_gloabl_n : ℕ
  pub mutex : Owner
  pub demo : Demo
  pub demo_left : ℕ
  pub demo2 : Demo2
  pub demo2_left : ℕ

abbrev pub rounds : ℕ
rounds = 10

abbrev pub init : System
init = record {
  i_gloabl_n = 0;
  mutex = nobody;
  demo = demo_idle;
  demo_left = rounds;
  demo2 = demo2_idle;
  demo2_left = rounds;
}

pub data Step (s : System) : System → Type 0 where
  demo_locks :
      (k : ℕ)
      → s.demo ≡ demo_idle
      → s.demo_left ≡ suc k
      → s.mutex ≡ nobody
      → Step s (record s { demo = demo_locked; mutex = by_demo })
  demo_counts : s.demo ≡ demo_locked → Step s (record s { demo = demo_counted (s.i_gloabl_n + 1) })
  demo_stores :
      (t : ℕ) → s.demo ≡ demo_counted t → Step s (record s { demo = demo_stored; i_gloabl_n = t })
  demo_unlocks :
      (k : ℕ)
      → s.demo ≡ demo_stored
      → s.demo_left ≡ suc k
      → Step s (record s { demo = demo_idle; demo_left = k; mutex = nobody })
  demo_ends : s.demo ≡ demo_idle → s.demo_left ≡ 0 → Step s (record s { demo = demo_ended })
  demo2_locks :
      (k : ℕ)
      → s.demo2 ≡ demo2_idle
      → s.demo2_left ≡ suc k
      → s.mutex ≡ nobody
      → Step s (record s { demo2 = demo2_locked; mutex = by_demo2 })
  demo2_counts :
      s.demo2 ≡ demo2_locked
      → Step s (record s { demo2 = demo2_counted; i_gloabl_n = s.i_gloabl_n + 1 })
  demo2_unlocks :
      (k : ℕ)
      → s.demo2 ≡ demo2_counted
      → s.demo2_left ≡ suc k
      → Step s (record s { demo2 = demo2_idle; demo2_left = k; mutex = nobody })
  demo2_ends : s.demo2 ≡ demo2_idle → s.demo2_left ≡ 0 → Step s (record s { demo2 = demo2_ended })

-- a run of so many steps
pub data Run (s : System) : ℕ → System → Type 0 where
  start : Run s 0 s
  next : {n : ℕ} {t u : System} → Run s n t → Step t u → Run s (suc n) u
