-- ===== src/TestMutex/Count.antt =====
-- 03NetPro_thread/05Pthread/04test_mutex.c: what the counter holds, and the steps of a run.
use mathlib.Core.Path.{subst}
use demo_class.Common.{
  ◌<◌, ℕ, zero, suc, ◌+◌, ◌*◌, ◌≤◌, ◌≡◌, refl, Bool, true, false, ◌&&◌, arith, if◌then◌else◌, ◌⊎◌,
  inl, inr,
}
use demo_class.TestMutex.{
  Demo, demo_idle, demo_locked, demo_counted, demo_stored, demo_ended, Demo2, demo2_idle,
  demo2_locked, demo2_counted, demo2_ended, nobody, by_demo, by_demo2, System, rounds, init, Step,
  demo_locks, demo_counts, demo_stores, demo_unlocks, demo_ends, demo2_locks, demo2_counts,
  demo2_unlocks, demo2_ends, Run, start, next,
}

-- the thread has the mutex
abbrev pub demo_holds : Demo → Bool
demo_holds demo_idle = false
demo_holds demo_locked = true
demo_holds (demo_counted t) = true
demo_holds demo_stored = true
demo_holds demo_ended = false

abbrev pub demo2_holds : Demo2 → Bool
demo2_holds demo2_idle = false
demo2_holds demo2_locked = true
demo2_holds demo2_counted = true
demo2_holds demo2_ended = false

-- 1 where the counter has the count of a round that is still left
abbrev pub stored : Demo → ℕ
stored demo_idle = 0
stored demo_locked = 0
stored (demo_counted t) = 0
stored demo_stored = 1
stored demo_ended = 0

abbrev pub counted2 : Demo2 → ℕ
counted2 demo2_idle = 0
counted2 demo2_locked = 0
counted2 demo2_counted = 1
counted2 demo2_ended = 0

-- how many steps of its round a thread has behind it
abbrev pub behind_it : Demo → ℕ
behind_it demo_idle = 0
behind_it demo_locked = 1
behind_it (demo_counted t) = 2
behind_it demo_stored = 3
behind_it demo_ended = 1

abbrev pub behind_it2 : Demo2 → ℕ
behind_it2 demo2_idle = 0
behind_it2 demo2_locked = 1
behind_it2 demo2_counted = 2
behind_it2 demo2_ended = 1

-- what `t` is, and that a thread in a round, or at the end, has rounds left, or none
abbrev pub FitsDemo : Demo → ℕ → ℕ → Type 0
FitsDemo demo_idle n left = Unit
FitsDemo demo_locked n left = 1 ≤ left
FitsDemo (demo_counted t) n left = (t ≡ n + 1) × (1 ≤ left)
FitsDemo demo_stored n left = 1 ≤ left
FitsDemo demo_ended n left = left ≡ 0

abbrev pub FitsDemo2 : Demo2 → ℕ → Type 0
FitsDemo2 demo2_idle left = Unit
FitsDemo2 demo2_locked left = 1 ≤ left
FitsDemo2 demo2_counted left = 1 ≤ left
FitsDemo2 demo2_ended left = left ≡ 0

pub record Inv (n : ℕ) (s : System) : Type 0 where
  pub owner :
      s.mutex
      ≡ (if demo_holds s.demo then by_demo else if demo2_holds s.demo2 then by_demo2 else nobody)
  pub apart : (demo_holds s.demo && demo2_holds s.demo2) ≡ false
  pub sum :
      s.i_gloabl_n + s.demo_left + s.demo2_left ≡ 2 * rounds + stored s.demo + counted2 s.demo2
  pub fits : FitsDemo s.demo s.i_gloabl_n s.demo_left
  pub fits2 : FitsDemo2 s.demo2 s.demo2_left
  pub steps :
      n + 4 * s.demo_left + 3 * s.demo2_left ≡ 7 * rounds + behind_it s.demo + behind_it2 s.demo2

Step-Inv : {n : ℕ} {s t : System} → Step s t → Inv n s → Inv (suc n) t
Step-Inv {n} {s} (demo_locks k e l free) v = ground arith
Step-Inv {n} {s} (demo_counts e) v = ground arith
Step-Inv {n} {s} (demo_stores t e) v = ground arith
Step-Inv {n} {s} (demo_unlocks k e l) v = ground arith
Step-Inv {n} {s} (demo_ends e l) v = ground arith
Step-Inv {n} {s} (demo2_locks k e l free) v = ground arith
Step-Inv {n} {s} (demo2_counts e) v = ground arith
Step-Inv {n} {s} (demo2_unlocks k e l) v = ground arith
Step-Inv {n} {s} (demo2_ends e l) v = ground arith

Run-Inv : {n : ℕ} {s : System} → Run init n s → Inv n s
Run-Inv start = record {
  owner = refl;
  apart = refl;
  sum = omega arith;
  fits = tt;
  fits2 = tt;
  steps = omega arith;
}
Run-Inv (next r st) = Step-Inv st (Run-Inv r)

behind-FitsDemo : (d : Demo) (n left : ℕ) → FitsDemo d n left → behind_it d ≤ 1 + 4 * left
behind-FitsDemo demo_idle n left f = (omega arith)
behind-FitsDemo demo_locked n left f = (omega arith)
behind-FitsDemo (demo_counted t) n left f = (omega arith)
behind-FitsDemo demo_stored n left f = (omega arith)
behind-FitsDemo demo_ended n left f = (omega arith)

behind-FitsDemo2 : (d : Demo2) (left : ℕ) → FitsDemo2 d left → behind_it2 d ≤ 1 + 3 * left
behind-FitsDemo2 demo2_idle left f = (omega arith)
behind-FitsDemo2 demo2_locked left f = (omega arith)
behind-FitsDemo2 demo2_counted left f = (omega arith)
behind-FitsDemo2 demo2_ended left f = (omega arith)

Inv-bound : (n : ℕ) (s : System) → Inv n s → n ≤ 72
Inv-bound n s v =
    let b = behind-FitsDemo s.demo s.i_gloabl_n s.demo_left v.fits in
    let b2 = behind-FitsDemo2 s.demo2 s.demo2_left v.fits2 in let st = v.steps in omega arith

abbrev pub GoesOn : System → Type 0
GoesOn s = (t : System) × Step s t

from-one : (n : ℕ) → 1 ≤ n → (k : ℕ) × (n ≡ suc k)
from-one zero h = absurd (omega arith)
from-one (suc k) h = (k, refl)

-- a thread that is in its round goes on
demo-GoesOn :
    (n : ℕ) (s : System) (d : Demo) → Inv n s → s.demo ≡ d → demo_holds d ≡ true → GoesOn s
demo-GoesOn n s demo_idle v e h = absurd (cc)
demo-GoesOn n s demo_locked v e h =
    (record s { demo = demo_counted (s.i_gloabl_n + 1) }, demo_counts e)
demo-GoesOn n s (demo_counted t) v e h =
    (record s { demo = demo_stored; i_gloabl_n = t }, demo_stores t e)
demo-GoesOn n s demo_stored v e h =
    let some_left : 1 ≤ s.demo_left = subst (λ d. FitsDemo d s.i_gloabl_n s.demo_left) e v.fits in
    let (k, l) = from-one s.demo_left some_left in
    (record s { demo = demo_idle; demo_left = k; mutex = nobody }, demo_unlocks k e l)
demo-GoesOn n s demo_ended v e h = absurd (cc)

demo2-GoesOn :
    (n : ℕ) (s : System) (d : Demo2) → Inv n s → s.demo2 ≡ d → demo2_holds d ≡ true → GoesOn s
demo2-GoesOn n s demo2_idle v e h = absurd (cc)
demo2-GoesOn n s demo2_locked v e h =
    (record s { demo2 = demo2_counted; i_gloabl_n = s.i_gloabl_n + 1 }, demo2_counts e)
demo2-GoesOn n s demo2_counted v e h =
    let some_left : 1 ≤ s.demo2_left = subst (λ d. FitsDemo2 d s.demo2_left) e v.fits2 in
    let (k, l) = from-one s.demo2_left some_left in
    (record s { demo2 = demo2_idle; demo2_left = k; mutex = nobody }, demo2_unlocks k e l)
demo2-GoesOn n s demo2_ended v e h = absurd (cc)

-- with a free mutex a thread before the lock goes on
demo_idle-GoesOn :
    (s : System) (l : ℕ) → s.demo ≡ demo_idle → s.demo_left ≡ l → s.mutex ≡ nobody → GoesOn s
demo_idle-GoesOn s zero e l free = (record s { demo = demo_ended }, demo_ends e l)
demo_idle-GoesOn s (suc k) e l free =
    (record s { demo = demo_locked; mutex = by_demo }, demo_locks k e l free)

demo2_idle-GoesOn :
    (s : System) (l : ℕ) → s.demo2 ≡ demo2_idle → s.demo2_left ≡ l → s.mutex ≡ nobody → GoesOn s
demo2_idle-GoesOn s zero e l free = (record s { demo2 = demo2_ended }, demo2_ends e l)
demo2_idle-GoesOn s (suc k) e l free =
    (record s { demo2 = demo2_locked; mutex = by_demo2 }, demo2_locks k e l free)

progress :
    (n : ℕ) (s : System) (d : Demo) (d2 : Demo2)
    → Inv n s
    → s.demo ≡ d
    → s.demo2 ≡ d2
    → ((s.demo ≡ demo_ended) × (s.demo2 ≡ demo2_ended)) ⊎ GoesOn s
progress n s demo_locked d2 v e e2 = inr (demo-GoesOn n s demo_locked v e refl)
progress n s (demo_counted t) d2 v e e2 = inr (demo-GoesOn n s (demo_counted t) v e refl)
progress n s demo_stored d2 v e e2 = inr (demo-GoesOn n s demo_stored v e refl)
progress n s demo_idle demo2_locked v e e2 = inr (demo2-GoesOn n s demo2_locked v e2 refl)
progress n s demo_idle demo2_counted v e e2 = inr (demo2-GoesOn n s demo2_counted v e2 refl)
progress n s demo_idle demo2_idle v e e2 =
    inr (demo_idle-GoesOn s s.demo_left e refl (ground arith))
progress n s demo_idle demo2_ended v e e2 =
    inr (demo_idle-GoesOn s s.demo_left e refl (ground arith))
progress n s demo_ended demo2_locked v e e2 = inr (demo2-GoesOn n s demo2_locked v e2 refl)
progress n s demo_ended demo2_counted v e e2 = inr (demo2-GoesOn n s demo2_counted v e2 refl)
progress n s demo_ended demo2_idle v e e2 =
    inr (demo2_idle-GoesOn s s.demo2_left e2 refl (ground arith))
progress n s demo_ended demo2_ended v e e2 = inl (e, e2)

-- However the threads are scheduled, the program does not stop before 72 steps, and behind them both have
-- ended and the counter is 20: no count is lost.
pub Run-ends :
    {n : ℕ} {s : System}
    → Run init n s
    → ((n ≡ 72) × (s.demo ≡ demo_ended) × (s.demo2 ≡ demo2_ended) × (s.i_gloabl_n ≡ 20))
      ⊎ ((n < 72) × GoesOn s)
Run-ends {n} {s} r =
    let v = Run-Inv r in
    elim (progress n s s.demo s.demo2 v refl refl) [
      | inl (e, e2) ↦ inl (ground arith, e, e2, ground arith)
      | inr (t, st) ↦ inr (Inv-bound (suc n) t (Step-Inv st v), (t, st))
    ]
