-- ===== src/ProCon.antt =====
-- 03NetPro_thread/05Pthread/06test_pro_con.c: a producer and a consumer that share `data` under a mutex,
-- with a condition variable. A step is what one thread does between two calls of the library; the mutex
-- and the condition variable do what POSIX says of them, a wake-up for no reason included.
pub mod Invariant
pub mod Stuck
mod Tests
use demo_class.Common.{ℕ, zero, suc, ◌+◌, ◌<◌, ◌≡◌}

-- where `pro_handler` stands: before the lock, with the lock, behind the increment, behind the unlock,
-- and behind the loop
pub data Pro : Type 0 where
  pro_idle : Pro
  pro_locked : Pro
  pro_added : Pro
  pro_signals : Pro
  pro_ended : Pro

-- where `con_handler` stands: before the lock, at the first `while`, in `pthread_cond_wait`, woken there,
-- at the second `while`, and behind the loop
pub data Con : Type 0 where
  con_idle : Con
  con_tests : Con
  con_waits : Con
  con_woken : Con
  con_takes : Con
  con_ended : Con

pub data Owner : Type 0 where
  nobody : Owner
  producer : Owner
  consumer : Owner

-- `data`, the mutex, and the two threads with the rounds that they have left; the rounds count from 100
pub record System : Type 0 where
  pub stock : ℕ
  pub mutex : Owner
  pub pro : Pro
  pub pro_left : ℕ
  pub con : Con
  pub con_left : ℕ

abbrev pub rounds : ℕ
rounds = 100

-- `pthread_cond_signal`
abbrev pub wake : Con → Con
wake con_waits = con_woken
wake con_idle = con_idle
wake con_tests = con_tests
wake con_woken = con_woken
wake con_takes = con_takes
wake con_ended = con_ended

pub data Step (s : System) : System → Type 0 where
  pro_locks :
      (k : ℕ)
      → s.pro ≡ pro_idle
      → s.pro_left ≡ suc k
      → s.mutex ≡ nobody
      → Step s (record s { pro = pro_locked; mutex = producer })
  pro_adds : s.pro ≡ pro_locked → Step s (record s { pro = pro_added; stock = s.stock + 1 })
  pro_unlocks : s.pro ≡ pro_added → Step s (record s { pro = pro_signals; mutex = nobody })
  pro_signaled :
      (k : ℕ)
      → s.pro ≡ pro_signals
      → s.pro_left ≡ suc k
      → Step s (record s { pro = pro_idle; pro_left = k; con = wake s.con })
  pro_ends : s.pro ≡ pro_idle → s.pro_left ≡ 0 → Step s (record s { pro = pro_ended })
  con_locks :
      (k : ℕ)
      → s.con ≡ con_idle
      → s.con_left ≡ suc k
      → s.mutex ≡ nobody
      → Step s (record s { con = con_tests; mutex = consumer })
  con_sleeps :
      s.con ≡ con_tests → s.stock ≡ 0 → Step s (record s { con = con_waits; mutex = nobody })
  con_wakes : s.con ≡ con_waits → Step s (record s { con = con_woken })
  con_relocks :
      s.con ≡ con_woken → s.mutex ≡ nobody → Step s (record s { con = con_tests; mutex = consumer })
  con_goes_on :
      (k : ℕ) → s.con ≡ con_tests → s.stock ≡ suc k → Step s (record s { con = con_takes })
  con_takes_one : (k : ℕ) → s.con ≡ con_takes → s.stock ≡ suc k → Step s (record s { stock = k })
  con_unlocks :
      (k : ℕ)
      → s.con ≡ con_takes
      → s.stock ≡ 0
      → s.con_left ≡ suc k
      → Step s (record s { con = con_idle; con_left = k; mutex = nobody })
  con_ends : s.con ≡ con_idle → s.con_left ≡ 0 → Step s (record s { con = con_ended })

-- `main` starts with `data = CON_INIT_VAL`, which is 3
abbrev pub init : System
init = record {
  stock = 3;
  mutex = nobody;
  pro = pro_idle;
  pro_left = rounds;
  con = con_idle;
  con_left = rounds;
}

pub data Reach (s : System) : System → Type 0 where
  here : Reach s s
  later : {t u : System} → Reach s t → Step t u → Reach s u
