-- ===== src/Calc/Steps.antt =====
-- Operators that wait on the stack, and the loops that work them off.
use demo_class.Common.{ℕ, zero, suc, ◌+◌, ◌≤◌, ◌<◌, ◌≡◌, false, List, ◌∷◌, arith, length, ltb, ◌==◌}
use demo_class.Common.Int.{ℤ}
use demo_class.Calc.{Calc, Flag, ok, opr2level, do_stack, opr_loop, bracket_loop, finish_loop}

abbrev pub calc : List ℤ → List ℕ → Flag → Calc
calc ns os f = record { nums = ns; oprs = os; flag = f }

-- `do_stack`, run until the operators above `os` are gone, leaves `v` on top of `ns`; all of them
-- have level `l` or more
pub data Pending (ns : List ℤ) (os : List ℕ) (v : ℤ) (l : ℕ) : List ℤ → List ℕ → Type 0 where
  done : Pending ns os v l (v ∷ ns) os
  more :
      {c : ℕ} {ns₁ ns₂ : List ℤ} {os₁ : List ℕ}
      → l ≤ opr2level c
      → ((f : Flag) → do_stack (calc ns₂ (c ∷ os₁) f) ≡ ok (calc ns₁ os₁ f))
      → Pending ns os v l ns₁ os₁
      → Pending ns os v l ns₂ (c ∷ os₁)

module _ {ns : List ℤ} {os : List ℕ} {v : ℤ} {l : ℕ} where
  pub Pending-mono :
      {ns' : List ℤ} {os' : List ℕ} (k : ℕ)
      → k ≤ l
      → Pending ns os v l ns' os'
      → Pending ns os v k ns' os'
  Pending-mono k h done = done
  Pending-mono k h (more le step p) = more (omega arith) step (Pending-mono k h p)

  -- one operator more below
  pub Pending-snoc :
      {c : ℕ} {w : ℤ} {ns₀ ns' : List ℤ} {os₀ os' : List ℕ}
      → Pending ns os v l ns' os'
      → os ≡ c ∷ os₀
      → l ≤ opr2level c
      → ((f : Flag) → do_stack (calc (v ∷ ns) (c ∷ os₀) f) ≡ ok (calc (w ∷ ns₀) os₀ f))
      → Pending ns₀ os₀ w l ns' os'
  Pending-snoc done e h step = rw e (more h step done)
  Pending-snoc (more le first p) e h step = more le first (Pending-snoc p e h step)

  Pending-length :
      {ns' : List ℤ} {os' : List ℕ} → Pending ns os v l ns' os' → length os ≤ length os'
  Pending-length done = omega arith
  Pending-length (more le step p) = omega (arith, Pending-length p)

  -- the operators that wait are worked off by an operator that binds no tighter
  pub opr_loop-Pending :
      {ns' : List ℤ} {os' : List ℕ} (c k n : ℕ) (f : Flag)
      → opr2level c ≤ l
      → Pending ns os v l ns' os'
      → k + length os ≡ n + length os'
      → opr_loop k c (calc ns' os' f) ≡ opr_loop n c (calc (v ∷ ns) os f)
  unfolding opr_loop
  opr_loop-Pending c k n f h done e = let same : k ≡ n = omega arith in rw same
  opr_loop-Pending c zero n f h (more le step p) e = absurd (omega (arith, Pending-length p))
  opr_loop-Pending c (suc k) n f h (more {c = d} le step p) e =
      let stays : ltb (opr2level d) (opr2level c) ≡ false = ground arith in
      rw (stays, step f) (opr_loop-Pending c k n f h p (omega arith))

  -- so are they by a closing bracket, and at the end
  pub bracket_loop-Pending :
      {ns' : List ℤ} {os' : List ℕ} (k n : ℕ) (f : Flag)
      → 0 < l
      → Pending ns os v l ns' os'
      → k + length os ≡ n + length os'
      → bracket_loop k (calc ns' os' f) ≡ bracket_loop n (calc (v ∷ ns) os f)
  unfolding bracket_loop opr2level
  bracket_loop-Pending k n f h done e = let same : k ≡ n = omega arith in rw same
  bracket_loop-Pending zero n f h (more le step p) e = absurd (omega (arith, Pending-length p))
  bracket_loop-Pending (suc k) n f h (more {c = d} le step p) e =
      let other : (d == b'(') ≡ false = ground arith in
      rw (other, step f) (bracket_loop-Pending k n f h p (omega arith))

  pub finish_loop-Pending :
      {ns' : List ℤ} {os' : List ℕ} (k n : ℕ) (f : Flag)
      → 0 < l
      → Pending ns os v l ns' os'
      → k + length os ≡ n + length os'
      → finish_loop k (calc ns' os' f) ≡ finish_loop n (calc (v ∷ ns) os f)
  unfolding finish_loop opr2level
  finish_loop-Pending k n f h done e = let same : k ≡ n = omega arith in rw same
  finish_loop-Pending zero n f h (more le step p) e = absurd (omega (arith, Pending-length p))
  finish_loop-Pending (suc k) n f h (more {c = d} le step p) e =
      let other : (d == b'(') ≡ false = ground arith in
      rw (other, step f) (finish_loop-Pending k n f h p (omega arith))
