-- ===== src/Joesph/Survivor.antt =====
-- 01DataStruct/04Kernel_list/joesph.c: who is the last one.
use mathlib.Core.Path.{subst}
use native.Mathlib.Nat.{mul-le-mul_right}
use demo_class.Common.{
  ℕ, zero, suc, ◌+◌, ◌*◌, ◌/◌, ◌^◌, ◌≤◌, ◌<◌, ◌≡◌, refl, sym, ap, ◌∙◌, arith, true, false, inl, inr,
  lt_or_ge, Option, some, List, [], ◌∷◌, ◌++◌, length, length-append, ◌==◌, append-nil,
}
use demo_class.Links.{Links}
use demo_class.Links.Seg.{last}
use demo_class.Links.Ring.{Ring, first-Ring, next-Ring, next-last-Ring, prev-Ring}
use demo_class.Joesph.{start_loop, continue_loop, while_loop, joesph_loop}
use demo_class.Joesph.Counting.{pass, circle, length-pass, pass-two, count-bound, circle-pass}
use demo_class.Joesph.Passes.{continue_loop-Ring, start_loop-Ring}

while_loop-stops :
    (k f head step cur n x : ℕ) (m : Links)
    → Ring m head (x ∷ [])
    → while_loop (suc k) f head step cur n m ≡ some m
unfolding while_loop
while_loop-stops k f head step cur n x m r =
    let first = first-Ring m head (x ∷ []) r in
    let second = next-Ring m head x [] [] r in
    let one : (m.next (m.next head) == head) ≡ true = ground arith in rw (one, while_loop) refl

while_loop-goes :
    (k f head step cur n n' first a : ℕ) (xs : List ℕ) (m m' : Links)
    → Ring m head xs
    → 2 ≤ length xs
    → m.next cur ≡ first
    → continue_loop f head step first n m ≡ some (n', m')
    → while_loop (suc k) f head step cur n m ≡ while_loop k f head step head n' m'
unfolding while_loop
while_loop-goes k f head step cur n n' first a [] m m' r two to q = absurd (omega arith)
while_loop-goes k f head step cur n n' first a (x ∷ []) m m' r two to q = absurd (omega arith)
while_loop-goes k f head step cur n n' first a (x ∷ y ∷ xs) m m' r two to q =
    let start = first-Ring m head (x ∷ y ∷ xs) r in
    let second = next-Ring m head x [] (y ∷ xs) r in
    let more : (m.next (m.next head) == head) ≡ false = ground (arith, r.distinct) in
    rw (more, while_loop, to, q) refl

-- a pass over a part of two or more leaves one at least
pass-leaves :
    (step n x : ℕ) (done rest : List ℕ)
    → 2 ≤ step
    → 2 ≤ length (done ++ x ∷ rest)
    → 1 ≤ length (done ++ pass step n (x ∷ rest))
pass-leaves step n x [] [] big two = absurd (omega arith)
pass-leaves step n x [] (y ∷ rest) big two = pass-two step n x y rest big
pass-leaves step n x (d ∷ done) rest big two = ground arith

not_empty : (zs : List ℕ) → 1 ≤ length zs → (y : ℕ) × (ys : List ℕ) × (zs ≡ y ∷ ys)
not_empty [] h = absurd (omega arith)
not_empty (y ∷ ys) h = (y, ys, refl)

-- the last one, and the links behind it, are those of the circle
abbrev pub Ends : ℕ → ℕ → ℕ → List ℕ → Option Links → Type 0
Ends head step n queue out =
    (v : ℕ) × (m' : Links) × (out ≡ some m')
    × Ring m' head (v ∷ [])
    × ((j : ℕ) × (circle j step n queue ≡ some v))

while_loop-one :
    (k f head step cur n x : ℕ) (m : Links) (done rest : List ℕ)
    → Ring m head (done ++ x ∷ rest)
    → length (done ++ x ∷ rest) ≤ 1
    → Ends head step n ((x ∷ rest) ++ done) (while_loop (suc k) f head step cur n m)
unfolding circle
while_loop-one k f head step cur n x m [] [] r one =
    (x, m, while_loop-stops k f head step cur n x m r, r, (zero, refl))
while_loop-one k f head step cur n x m [] (y ∷ rest) r one = absurd (omega arith)
while_loop-one k f head step cur n x m (d ∷ done) rest r one =
    absurd (let l = length-append done (x ∷ rest) in omega arith)

while_loop-Ends :
    (k f head step cur n total x : ℕ) (m : Links) (done rest : List ℕ)
    → 2 ≤ step
    → Ring m head (done ++ x ∷ rest)
    → m.next cur ≡ x
    → length (done ++ x ∷ rest) + n / step ≡ total
    → total < f
    → step * suc total ≤ 2 ^ 64
    → step * suc total < k + n
    → Ends head step n ((x ∷ rest) ++ done) (while_loop k f head step cur n m)
while_loop-Ends zero f head step cur n total x m done rest big r to all room fits fuel =
    absurd (let b = count-bound step n total (omega arith) (omega arith) in omega arith)
while_loop-Ends (suc k) f head step cur n total x m done rest big r to all room fits fuel =
    elim (lt_or_ge 1 (length (done ++ x ∷ rest))) [
      | inr one ↦ while_loop-one k f head step cur n x m done rest r one
      | inl two ↦
          let counted = length-pass step n (x ∷ rest) (omega arith) in
          let before = length-append done (x ∷ rest) in
          let left = length-append done (pass step n (x ∷ rest)) in
          let n' = n + suc (length rest) in
          let bound = count-bound step n' total (omega arith) (omega arith) in
          let (m₁, q, r₁) =
            continue_loop-Ring f head step n m done (x ∷ rest) r (omega arith) (omega arith) in
          let (y, ys, e) =
            not_empty (done ++ pass step n (x ∷ rest)) (pass-leaves step n x done rest big two) in
          let r₂ : Ring m₁ head (y ∷ ys) = subst (Ring m₁ head) e r₁ in
          let size : length (y ∷ ys) + n' / step ≡ total =
            subst (λ (zs : List ℕ). length zs + n' / step ≡ total) e (omega arith) in
          let (v, m', q', r', (j, c)) =
            while_loop-Ends k f head step head n' total y m₁ [] ys big r₂
              (first-Ring m₁ head (y ∷ ys) r₂) size room fits (omega arith) in
          let turned : circle j step n' (done ++ pass step n (x ∷ rest)) ≡ some v =
            subst (λ (zs : List ℕ). circle j step n' zs ≡ some v) (append-nil (y ∷ ys) ∙ sym e) c in
          (
            v,
            m',
            while_loop-goes k f head step cur n n' x x (done ++ x ∷ rest) m m₁ r two to q ∙ q',
            r',
            circle-pass step n j (x ∷ rest) done v turned,
          )
    ]

joesph_loop-runs :
    (k head start step cur v : ℕ) (m m' : Links)
    → start_loop k head (m.next head) start m ≡ some cur
    → while_loop k k head step (m.prev cur) 0 m ≡ some m'
    → m'.next head ≡ v
    → joesph_loop k head start step m ≡ some (v, m')
unfolding joesph_loop
joesph_loop-runs k head start step cur v m m' e e' e'' = rw (e, e', e'') refl

-- The list ends with one link in it, the one that is left of the circle when, counted from the link with
-- the number `start`, every `step`-th goes; for a step of 2 or more, a start within the list, and a list
-- and step for which no count wraps around.
pub joesph_loop-circle :
    (k head step x : ℕ) (m : Links) (done rest : List ℕ)
    → 2 ≤ step
    → Ring m head (done ++ x ∷ rest)
    → step * suc (length (done ++ x ∷ rest)) ≤ 2 ^ 64
    → step * suc (length (done ++ x ∷ rest)) < k
    → (v : ℕ) × (m' : Links) × (joesph_loop k head (suc (length done)) step m ≡ some (v, m'))
      × Ring m' head (v ∷ [])
      × ((j : ℕ) × (circle j step 0 ((x ∷ rest) ++ done) ≡ some v))
joesph_loop-circle k head step x m done rest big r fits fuel =
    let total = length (done ++ x ∷ rest) in
    let size = length-append done (x ∷ rest) in
    let twice = mul-le-mul_right (suc total) big in
    let first = first-Ring m head (done ++ x ∷ rest) r in
    let at_start = start_loop-Ring k head m [] done x rest r (omega arith) (omega arith) in
    let back = prev-Ring m head x done rest r in
    let (v, m', q, r', c) =
      while_loop-Ends k k head step (last head done) 0 total x m done rest big r
        (next-last-Ring m head x done rest r) (omega arith) (omega arith) fits (omega arith) in
    (
      v,
      m',
      joesph_loop-runs k head (suc (length done)) step x v m m'
          (ap (λ (p : ℕ). start_loop k head p (suc (length done)) m) first ∙ at_start)
          (ap (λ (p : ℕ). while_loop k k head step p 0 m) back ∙ q)
          (first-Ring m' head (v ∷ []) r'),
      r',
      c,
    )
