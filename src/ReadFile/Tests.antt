-- ===== src/ReadFile/Tests.antt =====
-- Two threads and a file of 5 bytes: the second fails, the first reads the file.
use demo_class.Common.{ℕ, zero, suc, ◌≡◌, ◌<◌, refl, arith, Bool, true, false, ◌==◌}
use demo_class.ReadFile.{
  System, nobody, put, idle, reads, leaves, has_read, loaded, summed, ended, init, locks, gets,
  at_end, fails, loads, stores, unlocks, returns, Reach, here, later,
}
use demo_class.ReadFile.Sums.{Reach-total}

abbrev code : ℕ → Bool
code i = i == 0

abbrev finished : System
finished = record {
  file = 0;
  total_size = 5;
  is_defined = true;
  rmutex = nobody;
  place =
      put
        (put
          (put
            (put
              (put
                (put
                  (put
                    (put (put (put (put (λ i. idle) 1 reads) 1 (leaves false)) 1 (ended false)) 0
                      reads)
                    0 (has_read 5))
                  0 (loaded 5 0))
                0 summed)
              0 idle)
            0 reads)
          0 (leaves true))
        0 (ended true);
  nread = put (put (λ i. 0) 0 5) 0 0;
}

schedule : Reach 2 (init 5) finished
schedule =
    later 0
      (later 0
        (later 0
          (later 0
            (later 0
              (later 0
                (later 0
                  (later 0
                    (later 1
                      (later 1 (later 1 (here) (omega arith) (locks refl refl)) (omega arith)
                        (fails refl))
                      (omega arith) (returns false refl))
                    (omega arith) (locks refl refl))
                  (omega arith) (gets 5 refl (omega arith) (omega arith) (omega arith)))
                (omega arith) (loads 5 refl))
              (omega arith) (stores 5 0 refl))
            (omega arith) (unlocks refl))
          (omega arith) (locks refl refl))
        (omega arith) (at_end refl refl))
      (omega arith) (returns true refl)

all_over : (j : ℕ) → j < 2 → finished.place j ≡ ended (code j)
all_over zero lt = refl
all_over (suc zero) lt = refl
all_over (suc (suc j)) lt = absurd (omega arith)

Reach-total_example : (finished.total_size ≡ 5) × (finished.is_defined ≡ true)
Reach-total_example = Reach-total 0 code schedule (omega arith) all_over (omega arith) refl
