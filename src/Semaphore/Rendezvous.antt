-- ===== src/Semaphore/Rendezvous.antt =====
-- 02App_Devel/03IPC/05Semaphore/SysV/sem_parent_child.c: the order of the two processes, and the steps of a run.
use mathlib.Core.Path.{subst}
use demo_class.Common.{ℕ, suc, ◌+◌, ◌-◌, ◌<◌, ◌≤◌, ◌≡◌, refl, arith, ◌⊎◌, inl, inr}
use demo_class.Semaphore.{
  Child, child_waits, child_posts, child_leaves, child_ended, Parent, parent_posts, parent_waits,
  parent_leaves, parent_ended, System, init, Step, child_passes, child_gives, child_exits,
  parent_gives, parent_reaps, parent_exits, Run, start, next, interrupted,
}

-- the steps that a process has done
abbrev pub child_steps : Child → ℕ
child_steps child_waits = 0
child_steps child_posts = 1
child_steps child_leaves = 2
child_steps child_ended = 3

abbrev pub parent_steps : Parent → ℕ
parent_steps parent_posts = 0
parent_steps parent_waits = 1
parent_steps parent_leaves = 2
parent_steps parent_ended = 3

-- what the child has done to the value, as it stands
abbrev pub ChildSem : Child → System → Type 0
ChildSem child_waits s = (s.child_p ≡ 0) × (s.child_v ≡ 0) × (s.val ≡ parent_steps s.parent)
ChildSem child_posts s = (s.child_p ≡ 1) × (s.child_v ≡ 0) × (s.val ≡ 0)
ChildSem child_leaves s = (s.child_p ≡ 1) × (s.child_v ≡ 1) × (s.val ≡ 1)
ChildSem child_ended s = s.val + (parent_steps s.parent - 2) ≡ 1

abbrev pub ParentSem : Parent → System → Type 0
ParentSem parent_posts s = (s.parent_v ≡ 0) × (child_steps s.child ≡ 0)
ParentSem parent_waits s = s.parent_v ≡ 1
ParentSem parent_leaves s = (s.parent_v ≡ 1) × (child_steps s.child ≡ 3)
ParentSem parent_ended s = child_steps s.child ≡ 3

pub record Inv (n : ℕ) (s : System) : Type 0 where
  pub steps : n ≡ child_steps s.child + parent_steps s.parent
  pub of_child : ChildSem s.child s
  pub of_parent : ParentSem s.parent s

Step-Inv : {n : ℕ} {s t : System} → Step s t → Inv n s → Inv (suc n) t
Step-Inv {n} {s} (child_passes k e l) v = ground arith
Step-Inv {n} {s} (child_gives e) v = ground arith
Step-Inv {n} {s} (child_exits e) v = ground arith
Step-Inv {n} {s} (parent_gives e) v = ground arith
Step-Inv {n} {s} (parent_reaps e e2) v = ground arith
Step-Inv {n} {s} (parent_exits e) v = ground arith

Run-Inv : {n : ℕ} {s : System} → Run init n s → Inv n s
Run-Inv start = record { steps = refl; of_child = (refl, refl, refl); of_parent = (refl, refl) }
Run-Inv (next r st) = Step-Inv st (Run-Inv r)
Run-Inv (interrupted r i) = Run-Inv r

stays : (c : Child) → child_steps c ≡ 0 → c ≡ child_waits
stays child_waits e = refl
stays child_posts e = absurd (omega arith)
stays child_leaves e = absurd (omega arith)
stays child_ended e = absurd (omega arith)

-- While the parent has not done its V, the child is still in its P, whatever interrupts it.
pub Run-rendezvous :
    {n : ℕ} {s : System} → Run init n s → s.parent ≡ parent_posts → s.child ≡ child_waits
Run-rendezvous {n} {s} r e =
    let no_step : child_steps s.child ≡ 0 =
      (subst (λ p. ParentSem p s) e (Run-Inv r).of_parent).1 in
    stays s.child no_step

abbrev pub GoesOn : System → Type 0
GoesOn s = (t : System) × Step s t

progress :
    (n : ℕ) (s : System) (c : Child) (p : Parent)
    → Inv n s
    → s.child ≡ c
    → s.parent ≡ p
    → ((s.child ≡ child_ended) × (s.parent ≡ parent_ended)) ⊎ GoesOn s
progress n s c parent_posts v e e2 = inr (
  record s { parent = parent_waits; val = s.val + 1; parent_v = s.parent_v + 1 },
  parent_gives e2,
)
progress n s c parent_leaves v e e2 =
    inr (record s { parent = parent_ended; val = s.val - s.parent_v }, parent_exits e2)
progress n s child_waits parent_waits v e e2 = inr (
  record s { child = child_posts; val = 0; child_p = s.child_p + 1 },
  child_passes 0 e (ground arith),
)
progress n s child_posts parent_waits v e e2 =
    inr (record s { child = child_leaves; val = s.val + 1; child_v = s.child_v + 1 }, child_gives e)
progress n s child_leaves parent_waits v e e2 =
    inr (record s { child = child_ended; val = s.val + s.child_p - s.child_v }, child_exits e)
progress n s child_ended parent_waits v e e2 =
    inr (record s { parent = parent_leaves }, parent_reaps e2 e)
progress n s child_ended parent_ended v e e2 = inl (e, e2)
progress n s child_waits parent_ended v e e2 = absurd (ground arith)
progress n s child_posts parent_ended v e e2 = absurd (ground arith)
progress n s child_leaves parent_ended v e e2 = absurd (ground arith)

child-bound : (c : Child) → child_steps c ≤ 3
child-bound child_waits = (omega arith)
child-bound child_posts = (omega arith)
child-bound child_leaves = (omega arith)
child-bound child_ended = (omega arith)

parent-bound : (p : Parent) → parent_steps p ≤ 3
parent-bound parent_posts = (omega arith)
parent-bound parent_waits = (omega arith)
parent-bound parent_leaves = (omega arith)
parent-bound parent_ended = (omega arith)

Inv-bound : (n : ℕ) (s : System) → Inv n s → n ≤ 6
Inv-bound n s v =
    let c = child-bound s.child in let p = parent-bound s.parent in let st = v.steps in omega arith

-- Neither process waits for ever: the program does not stop before 6 steps, and behind them both have ended and
-- the semaphore is 0 again, as SEM_UNDO takes back the parent's V.
pub Run-finishes :
    {n : ℕ} {s : System}
    → Run init n s
    → ((n ≡ 6) × (s.child ≡ child_ended) × (s.parent ≡ parent_ended) × (s.val ≡ 0))
      ⊎ ((n < 6) × GoesOn s)
Run-finishes {n} {s} r =
    let v = Run-Inv r in
    elim (progress n s s.child s.parent v refl refl) [
      | inl (e, e2) ↦ inl (ground arith, e, e2, ground arith)
      | inr (t, st) ↦ inr (Inv-bound (suc n) t (Step-Inv st v), (t, st))
    ]
