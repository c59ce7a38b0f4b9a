-- ===== src/ReadFile.antt =====
-- 03NetPro_thread/05Pthread/05test_homework.c: threads that read one file together, under a mutex. A step is
-- what one thread does between two points where another may be scheduled; the mutex does what POSIX says of
-- it, and `pthread_cond_signal`, which nobody waits for, succeeds. A read takes any number of the bytes
-- that are left up to the size of the buffer, none only at the end of the file; it may be interrupted or
-- fail at any time. The addition to `total_size` is a load and a store; `is_defined` is false once a sum has
-- not fitted an `int`, and a state then has no meaning for the program.
pub mod Sums
mod Tests
use demo_class.Common.{
  ℕ, ◌+◌, ◌-◌, ◌<◌, ◌≤◌, ◌≡◌, Bool, true, false, ◌==◌, ◌&&◌, ltb, ◌^◌, if◌then◌else◌,
}

-- where a thread stands: before the lock, before the read with the lock, behind a read of so many bytes,
-- with `total_size` loaded to add to it, behind the sum, before the last unlock and the return of 0 or -1, and
-- behind the return
pub data Place : Type 0 where
  idle : Place
  reads : Place
  has_read : ℕ → Place
  loaded : ℕ → ℕ → Place
  summed : Place
  leaves : Bool → Place
  ended : Bool → Place

pub data Owner : Type 0 where
  nobody : Owner
  held : ℕ → Owner

-- the bytes that are left in the file, the sum and whether it has fitted, the mutex, and of each thread where
-- it stands and the `nread` of its `thr_info`
pub record System : Type 0 where
  pub file : ℕ
  pub total_size : ℕ
  pub is_defined : Bool
  pub rmutex : Owner
  pub place : ℕ → Place
  pub nread : ℕ → ℕ

abbrev pub buf_size : ℕ
buf_size = 4096

abbrev pub put {ℓ} : {A : Type ℓ} → (ℕ → A) → ℕ → A → ℕ → A
put f i v j = if i == j then v else f j

-- before the threads run; `calloc` leaves 0 in `nread`
abbrev pub init : ℕ → System
init size = record {
  file = size;
  total_size = 0;
  is_defined = true;
  rmutex = nobody;
  place = λ i. idle;
  nread = λ i. 0;
}

-- a step of thread `i`
pub data Step (i : ℕ) (s : System) : System → Type 0 where
  locks :
      s.place i ≡ idle
      → s.rmutex ≡ nobody
      → Step i s (record s { place = put s.place i reads; rmutex = held i })
  is_interrupted : s.place i ≡ reads → Step i s s
  gets :
      (n : ℕ)
      → s.place i ≡ reads
      → 0 < n
      → n ≤ buf_size
      → n ≤ s.file
      → Step i s (record s {
        place = put s.place i (has_read n);
        nread = put s.nread i n;
        file = s.file - n;
      })
  at_end :
      s.place i ≡ reads
      → s.file ≡ 0
      → Step i s (record s { place = put s.place i (leaves true); nread = put s.nread i 0 })
  fails : s.place i ≡ reads → Step i s (record s { place = put s.place i (leaves false) })
  loads :
      (n : ℕ)
      → s.place i ≡ has_read n
      → Step i s (record s { place = put s.place i (loaded n s.total_size) })
  stores :
      (n t : ℕ)
      → s.place i ≡ loaded n t
      → Step i s (record s {
        place = put s.place i summed;
        total_size = t + n;
        is_defined = s.is_defined && ltb (t + n) (2 ^ 31);
      })
  unlocks : s.place i ≡ summed → Step i s (record s { place = put s.place i idle; rmutex = nobody })
  returns :
      (b : Bool)
      → s.place i ≡ leaves b
      → Step i s (record s { place = put s.place i (ended b); rmutex = nobody })

-- what the threads below `n_thrs` can reach
pub data Reach (n_thrs : ℕ) (s : System) : System → Type 0 where
  here : Reach n_thrs s s
  later : {t u : System} (i : ℕ) → Reach n_thrs s t → i < n_thrs → Step i t u → Reach n_thrs s u
