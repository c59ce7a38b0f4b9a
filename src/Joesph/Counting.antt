-- ===== src/Joesph/Counting.antt =====
-- 01DataStruct/04Kernel_list/joesph.c: what a pass along a list leaves of it, and the circle.
use native.Mathlib.Nat.{
  suc-mod, mod-eq_of_lt, mod_self, mod-lt, div-add-mod, eq_of_mul-eq-mul_left, mul-le-mul_left,
  lt-mul-div-succ,
}
use demo_class.Common.{
  ℕ, zero, suc, ◌+◌, ◌*◌, ◌/◌, ◌%◌, ◌≤◌, ◌<◌, ◌≡◌, ap, ◌∙◌, ◌⊎◌, arith, true, false, inl, inr,
  Bool-cases, lt_or_eq, Option, none, some, List, [], ◌∷◌, ◌++◌, length, ◌==◌, if◌then◌else◌,
  append_assoc, append-nil,
}

-- those that a pass leaves, with `n` counted before
unfoldable pub pass : ℕ → ℕ → List ℕ → List ℕ
pass step n [] = []
pass step n (x ∷ xs) =
    let rest = pass step (suc n) xs in if suc n % step == 0 then rest else x ∷ rest

-- The circle as a queue: the first in it goes if the count is a multiple of `step`, and goes to its end if
-- not, until one is left. `none` if that takes more than `k` turns, or nobody is left.
unfoldable pub circle : ℕ → ℕ → ℕ → List ℕ → Option ℕ
circle k step n [] = none
circle k step n (x ∷ []) = some x
circle zero step n (x ∷ y ∷ xs) = none
circle (suc k) step n (x ∷ y ∷ xs) = elim (suc n % step == 0) [
  | true ↦ circle k step (suc n) (y ∷ xs)
  | false ↦ circle k step (suc n) ((y ∷ xs) ++ x ∷ [])
]

-- the next number after `n` is a multiple of `step` just when `n` leaves `step - 1`
suc-mod_cases :
    (step n : ℕ)
    → 0 < step
    → ((suc n % step ≡ 0) × (suc (n % step) ≡ step)) ⊎ (suc n % step ≡ suc (n % step))
suc-mod_cases step n pos =
    let below = mod-lt n pos in
    elim (lt_or_eq below) [
      | inl lt ↦ inr (suc-mod n step ∙ mod-eq_of_lt lt)
      | inr e ↦ inl (suc-mod n step ∙ ap (λ (k : ℕ). k % step) e ∙ mod_self step, ground arith)
    ]

-- how many multiples of `step` there are up to `n`
suc-div_lem :
    (step n : ℕ) → 0 < step → suc n / step ≡ n / step + (if suc n % step == 0 then 1 else 0)
suc-div_lem step n pos =
    let before = div-add-mod n step in
    let now = div-add-mod (suc n) step in
    elim (suc-mod_cases step n pos) [
      | inl (zero_now, e) ↦
          rw zero_now (eq_of_mul-eq-mul_left step pos (suc n / step) (n / step + 1) (ground arith))
      | inr e ↦
          let off : (suc n % step == 0) ≡ false = ground arith in
          rw off (eq_of_mul-eq-mul_left step pos (suc n / step) (n / step + 0) (ground arith))
    ]

-- a pass takes one off for each multiple of `step` that it counts
pub length-pass :
    (step n : ℕ) (xs : List ℕ)
    → 0 < step
    → length (pass step n xs) + (n + length xs) / step ≡ length xs + n / step
unfolding pass
length-pass step n [] pos = ground arith
length-pass step n (x ∷ xs) pos =
    let ih = length-pass step (suc n) xs pos in
    let here = suc-div_lem step n pos in
    let shift : (suc n + length xs) / step ≡ (n + suc (length xs)) / step =
      ap (λ (k : ℕ). k / step) (omega arith) in
    ground arith

-- of two that follow each other a pass leaves one
pub pass-two : (step n x y : ℕ) (xs : List ℕ) → 2 ≤ step → 1 ≤ length (pass step n (x ∷ y ∷ xs))
unfolding pass
pass-two step n x y xs two = elim (suc-mod_cases step n (omega arith)) [
  | inl (zero_now, e) ↦ elim (suc-mod_cases step (suc n) (omega arith)) [
    | inl (zero_then, e') ↦ absurd (omega arith)
    | inr e' ↦ ground arith
  ]
  | inr e ↦ ground arith
]

-- the count stays below the next multiple
pub count-bound : (step n q : ℕ) → 0 < step → n / step ≤ q → n < step * suc q
count-bound step n q pos h =
    let below = lt-mul-div-succ n pos in
    let above : n / step + 1 ≤ suc q = omega arith in
    let most = mul-le-mul_left step above in ground arith

goes-circle :
    (j step n x : ℕ) (q : List ℕ) (v : ℕ)
    → (suc n % step == 0) ≡ true
    → circle j step (suc n) q ≡ some v
    → (i : ℕ) × (circle i step n (x ∷ q) ≡ some v)
unfolding circle
goes-circle zero step n x [] v e h = absurd (cc)
goes-circle (suc j) step n x [] v e h = absurd (cc)
goes-circle j step n x (y ∷ ys) v e h = (suc j, rw (e, circle) h)

stays-circle :
    (j step n x : ℕ) (q : List ℕ) (v : ℕ)
    → (suc n % step == 0) ≡ false
    → circle j step (suc n) (q ++ x ∷ []) ≡ some v
    → (i : ℕ) × (circle i step n (x ∷ q) ≡ some v)
unfolding circle
stays-circle zero step n x [] v e h = (zero, h)
stays-circle (suc j) step n x [] v e h = (zero, h)
stays-circle j step n x (y ∷ ys) v e h = (suc j, rw (e, circle) h)

-- the circle goes on as the passes do: the first of the queue are those that the pass has before it
pub circle-pass :
    (step n k : ℕ) (todo kept : List ℕ) (v : ℕ)
    → circle k step (n + length todo) (kept ++ pass step n todo) ≡ some v
    → (j : ℕ) × (circle j step n (todo ++ kept) ≡ some v)
unfolding pass
circle-pass step n k [] kept v h =
    let none_counted : n + 0 ≡ n = omega arith in (k, rw (none_counted, append-nil) at h)
circle-pass step n k (x ∷ xs) kept v h =
    let shift : n + suc (length xs) ≡ suc n + length xs = omega arith in
    elim (Bool-cases (suc n % step == 0)) [
      | inl e ↦
          let (j, h') = circle-pass step (suc n) k xs kept v (rw (shift, e) at h) in
          goes-circle j step n x (xs ++ kept) v e h'
      | inr e ↦
          let (j, h') =
            circle-pass step (suc n) k xs (kept ++ x ∷ []) v
              (rw (append_assoc kept (x ∷ []) (pass step (suc n) xs)) (rw (shift, e) at h)) in
          stays-circle j step n x (xs ++ kept) v e (rw (append_assoc xs kept (x ∷ [])) h')
    ]
