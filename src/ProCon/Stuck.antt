-- ===== src/ProCon/Stuck.antt =====
-- 03NetPro_thread/05Pthread/06test_pro_con.c: the consumer's 100 rounds need not come to an end.
use demo_class.Common.{ℕ, zero, suc, ◌+◌, ◌≤◌, ◌≡◌, ◌≢◌, refl, arith}
use demo_class.ProCon.{
  pro_idle, pro_ended, con_idle, con_takes, con_ended, nobody, consumer, System, rounds, init, Step,
  pro_locks, pro_adds, pro_unlocks, pro_signaled, pro_ends, con_locks, con_sleeps, con_wakes,
  con_relocks, con_goes_on, con_takes_one, con_unlocks, con_ends, Reach, here, later,
}

-- the producer has ended and nothing is left, and the consumer has rounds to go
pub record Stuck (s : System) : Type 0 where
  pub over : s.pro ≡ pro_ended
  pub empty : s.stock ≡ 0
  pub to_go : 1 ≤ s.con_left
  pub not_taking : s.con ≢ con_takes
  pub not_ended : s.con ≢ con_ended

Step-Stuck : {s t : System} → Step s t → Stuck s → Stuck t
Step-Stuck {s} (pro_locks k e l free) v = ground arith
Step-Stuck {s} (pro_adds e) v = ground arith
Step-Stuck {s} (pro_unlocks e) v = ground arith
Step-Stuck {s} (pro_signaled k e l) v = ground arith
Step-Stuck {s} (pro_ends e l) v = ground arith
Step-Stuck {s} (con_locks k e l free) v = ground arith
Step-Stuck {s} (con_sleeps e l) v = ground arith
Step-Stuck {s} (con_wakes e) v = ground arith
Step-Stuck {s} (con_relocks e free) v = ground arith
Step-Stuck {s} (con_goes_on k e l) v = ground arith
Step-Stuck {s} (con_takes_one k e l) v = ground arith
Step-Stuck {s} (con_unlocks k e z l) v = ground arith
Step-Stuck {s} (con_ends e l) v = ground arith

Reach-Stuck : {s t : System} → Reach s t → Stuck s → Stuck t
Reach-Stuck here v = v
Reach-Stuck (later r st) v = Step-Stuck st (Reach-Stuck r v)

Reach-trans : {s t u : System} → Reach s t → Reach t u → Reach s u
Reach-trans r here = r
Reach-trans r (later q st) = later (Reach-trans r q) st

-- before the consumer's first round
abbrev producing : ℕ → ℕ → System
producing k n = record {
  stock = n;
  mutex = nobody;
  pro = pro_idle;
  pro_left = k;
  con = con_idle;
  con_left = rounds;
}

-- the producer's rounds, with the consumer not scheduled
produces : (k n : ℕ) → (m : ℕ) × (n + k ≡ m) × Reach (producing k n) (producing zero m)
produces zero n = (n, omega arith, here)
produces (suc k) n =
    let (m, sum, r) = produces k (n + 1) in
    let round : Reach (producing (suc k) n) (producing k (n + 1)) =
      later
        (later (later (later here (pro_locks k refl refl refl)) (pro_adds refl)) (pro_unlocks refl))
        (pro_signaled k refl refl) in
    (m, omega arith, Reach-trans round r)

-- the consumer takes all that there is in one round
abbrev taking_all : ℕ → System
taking_all n = record {
  stock = n;
  mutex = consumer;
  pro = pro_ended;
  pro_left = 0;
  con = con_takes;
  con_left = rounds;
}

takes : (n : ℕ) → Reach (taking_all n) (taking_all zero)
takes zero = here
takes (suc n) = Reach-trans (later here (con_takes_one n refl refl)) (takes n)

abbrev waiting : System
waiting = record {
  stock = 0;
  mutex = nobody;
  pro = pro_ended;
  pro_left = 0;
  con = con_idle;
  con_left = 99;
}

goes_to_waiting : (m : ℕ) → 1 ≤ m → Reach (producing zero m) waiting
goes_to_waiting zero some = absurd (omega arith)
goes_to_waiting (suc m) some =
    let starts : Reach (producing zero (suc m)) (taking_all (suc m)) =
      later (later (later here (pro_ends refl refl)) (con_locks 99 refl refl refl))
        (con_goes_on m refl refl) in
    later (Reach-trans starts (takes (suc m))) (con_unlocks 99 refl refl refl)

-- The program can reach a state from which the consumer never ends, whatever is scheduled, so that
-- `main` waits for it for ever.
pub main_blocks : (s : System) × Reach init s × ((t : System) → Reach s t → t.con ≢ con_ended)
main_blocks =
    let (m, sum, r) = produces rounds 3 in
    (
      waiting,
      Reach-trans r (goes_to_waiting m (omega arith)),
      λ t q.
          (Reach-Stuck q (record {
            over = refl;
            empty = refl;
            to_go = omega arith;
            not_taking = ground arith;
            not_ended = ground arith;
          })).not_ended,
    )
