-- ===== src/Semaphore.antt =====
-- 02App_Devel/03IPC/05Semaphore/SysV/sem_parent_child.c: a child that waits for its parent at a semaphore. A
-- step is one call of one process; `semop` does what POSIX says of it with SEM_UNDO: it blocks a P while
-- the value is 0, a signal may interrupt it before it has an effect, and the end of a process takes
-- back what it has done, down to 0 at most. Its other errors, as of a set that another program removes, are left out.
pub mod Rendezvous
mod Tests
use demo_class.Common.{ℕ, zero, suc, ◌+◌, ◌-◌, ◌≡◌}

-- where the child stands: in `up_sem_p`, in `up_sem_v`, before its exit, and behind it
pub data Child : Type 0 where
  child_waits : Child
  child_posts : Child
  child_leaves : Child
  child_ended : Child

-- where the parent stands: before `up_sem_v`, in `wait`, before its end, and behind it
pub data Parent : Type 0 where
  parent_posts : Parent
  parent_waits : Parent
  parent_leaves : Parent
  parent_ended : Parent

-- the value of the semaphore, the two processes, and how many P and V each has done
pub record System : Type 0 where
  pub val : ℕ
  pub child : Child
  pub child_p : ℕ
  pub child_v : ℕ
  pub parent : Parent
  pub parent_v : ℕ

-- behind `up_sem_init(1, 0)` and `fork`
abbrev pub init : System
init = record {
  val = 0;
  child = child_waits;
  child_p = 0;
  child_v = 0;
  parent = parent_posts;
  parent_v = 0;
}

pub data Step (s : System) : System → Type 0 where
  child_passes :
      (k : ℕ)
      → s.child ≡ child_waits
      → s.val ≡ suc k
      → Step s (record s { child = child_posts; val = k; child_p = s.child_p + 1 })
  child_gives :
      s.child ≡ child_posts
      → Step s (record s { child = child_leaves; val = s.val + 1; child_v = s.child_v + 1 })
  child_exits :
      s.child ≡ child_leaves
      → Step s (record s { child = child_ended; val = s.val + s.child_p - s.child_v })
  parent_gives :
      s.parent ≡ parent_posts
      → Step s (record s { parent = parent_waits; val = s.val + 1; parent_v = s.parent_v + 1 })
  parent_reaps :
      s.parent ≡ parent_waits → s.child ≡ child_ended → Step s (record s { parent = parent_leaves })
  parent_exits :
      s.parent ≡ parent_leaves
      → Step s (record s { parent = parent_ended; val = s.val - s.parent_v })

-- a process is in `semop`, which a signal may interrupt; the loop of `up_sem_p` and `up_sem_v` calls it again
pub data IsInSemop (s : System) : Type 0 where
  child_in_p : s.child ≡ child_waits → IsInSemop s
  child_in_v : s.child ≡ child_posts → IsInSemop s
  parent_in_v : s.parent ≡ parent_posts → IsInSemop s

-- a run of so many steps, and of interrupts between them
pub data Run (s : System) : ℕ → System → Type 0 where
  start : Run s 0 s
  next : {n : ℕ} {t u : System} → Run s n t → Step t u → Run s (suc n) u
  interrupted : {n : ℕ} {t : System} → Run s n t → IsInSemop t → Run s n t
