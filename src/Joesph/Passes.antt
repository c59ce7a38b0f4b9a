-- ===== src/Joesph/Passes.antt =====
-- 01DataStruct/04Kernel_list/joesph.c: the loops on the links of a list.
use native.Mathlib.Nat.{mod-eq_of_lt}
use demo_class.Common.{
  ℕ, zero, suc, ◌+◌, ◌-◌, ◌%◌, ◌^◌, ◌<◌, ◌≡◌, refl, ◌∙◌, arith, true, false, inl, inr, Bool-cases,
  some, List, [], ◌∷◌, ◌++◌, length, ◌==◌, append_assoc,
}
use demo_class.Links.{Links, list_del}
use demo_class.Links.Seg.{has-append}
use demo_class.Links.Splice.{following}
use demo_class.Links.Ring.{Ring, list_del-Ring, next-Ring, neighbours-Ring}
use demo_class.Joesph.{start_loop, continue_loop}
use demo_class.Joesph.Counting.{pass}

continue_loop-deletes :
    (k head step cur next n : ℕ) (m : Links)
    → (cur == head) ≡ false
    → suc n < 2 ^ 64
    → (suc n % step == 0) ≡ true
    → (list_del cur m).next cur ≡ next
    → continue_loop (suc k) head step cur n m
      ≡ continue_loop k head step next (suc n) (list_del cur m)
unfolding continue_loop
continue_loop-deletes k head step cur next n m ne fits e to =
    let count : (n + 1) % 2 ^ 64 ≡ suc n = mod-eq_of_lt (omega arith) ∙ (omega arith) in
    rw (ne, continue_loop, count, e, to) refl

continue_loop-keeps :
    (k head step cur next n : ℕ) (m : Links)
    → (cur == head) ≡ false
    → suc n < 2 ^ 64
    → (suc n % step == 0) ≡ false
    → m.next cur ≡ next
    → continue_loop (suc k) head step cur n m ≡ continue_loop k head step next (suc n) m
unfolding continue_loop
continue_loop-keeps k head step cur next n m ne fits e to =
    let count : (n + 1) % 2 ^ 64 ≡ suc n = mod-eq_of_lt (omega arith) ∙ (omega arith) in
    rw (ne, continue_loop, count, e, to) refl

list_del-next :
    (m : Links) (head cur : ℕ) (xs ys : List ℕ)
    → Ring m head (xs ++ cur ∷ ys)
    → (list_del cur m).next cur ≡ following head ys
unfolding list_del
list_del-next m head cur xs ys r =
    let apart = neighbours-Ring m head cur xs ys r in
    let to = next-Ring m head cur xs ys r in ground arith

not-head :
    (m : Links) (head cur : ℕ) (xs ys : List ℕ)
    → Ring m head (xs ++ cur ∷ ys)
    → (cur == head) ≡ false
not-head m head cur xs ys r = ground (arith, r.distinct, has-append head xs (cur ∷ ys))

continue_loop-end :
    (k head step n : ℕ) (m : Links) → continue_loop (suc k) head step head n m ≡ some (n, m)
unfolding continue_loop
continue_loop-end k head step n m =
    let same : (head == head) ≡ true = ground arith in rw (same, continue_loop) refl

-- A pass from a link on to the head ends, and leaves what `pass` leaves.
pub continue_loop-Ring :
    (k head step n : ℕ) (m : Links) (done todo : List ℕ)
    → Ring m head (done ++ todo)
    → length todo < k
    → n + length todo < 2 ^ 64
    → (m' : Links) × (continue_loop k head step (following head todo) n m
        ≡ some (n + length todo, m'))
      × Ring m' head (done ++ pass step n todo)
unfolding pass
continue_loop-Ring zero head step n m done todo r fuel fits = absurd (omega arith)
continue_loop-Ring (suc k) head step n m done [] r fuel fits =
    let all : n + 0 ≡ n = omega arith in (m, rw all (continue_loop-end k head step n m), r)
continue_loop-Ring (suc k) head step n m done (x ∷ xs) r fuel fits =
    let ne = not-head m head x done xs r in
    let shift : suc n + length xs ≡ n + suc (length xs) = omega arith in
    elim (Bool-cases (suc n % step == 0)) [
      | inl e ↦
          let to = list_del-next m head x done xs r in
          let (m', q, r') =
            continue_loop-Ring k head step (suc n) (list_del x m) done xs
              (list_del-Ring m head x done xs r) (omega arith) (omega arith) in
          (
            m',
            continue_loop-deletes k head step x (following head xs) n m ne (omega arith) e to
                ∙ (rw shift at q),
            rw e r',
          )
      | inr e ↦
          let to = next-Ring m head x done xs r in
          let (m', q, r') =
            continue_loop-Ring k head step (suc n) m (done ++ x ∷ []) xs
              (rw (append_assoc done (x ∷ []) xs) r) (omega arith) (omega arith) in
          (
            m',
            continue_loop-keeps k head step x (following head xs) n m ne (omega arith) e to
                ∙ (rw shift at q),
            rw e (rw (append_assoc done (x ∷ []) (pass step (suc n) xs)) at r'),
          )
    ]

start_loop-stops :
    (k head cur : ℕ) (m : Links)
    → (cur == head) ≡ false
    → start_loop (suc k) head cur 1 m ≡ some cur
unfolding start_loop
start_loop-stops k head cur m ne = rw (ne, start_loop) refl

start_loop-goes :
    (k head cur next n : ℕ) (m : Links)
    → (cur == head) ≡ false
    → suc (suc n) < 2 ^ 64
    → m.next cur ≡ next
    → start_loop (suc k) head cur (suc (suc n)) m ≡ start_loop k head next (suc n) m
unfolding start_loop
start_loop-goes k head cur next n m ne fits to =
    let less : (suc (suc n) + (2 ^ 64 - 1)) % 2 ^ 64 ≡ suc n = omega arith in
    let more : (suc n == 0) ≡ false = ground arith in rw (ne, start_loop, less, more, to) refl

-- The loop to the start ends at the link with that number.
pub start_loop-Ring :
    (k head : ℕ) (m : Links) (done todo : List ℕ) (x : ℕ) (rest : List ℕ)
    → Ring m head (done ++ (todo ++ x ∷ rest))
    → length todo < k
    → suc (length todo) < 2 ^ 64
    → start_loop k head (following head (todo ++ x ∷ rest)) (suc (length todo)) m ≡ some x
start_loop-Ring zero head m done todo x rest r fuel fits = absurd (omega arith)
start_loop-Ring (suc k) head m done [] x rest r fuel fits =
    start_loop-stops k head x m (not-head m head x done rest r)
start_loop-Ring (suc k) head m done (y ∷ todo) x rest r fuel fits =
    start_loop-goes k head y (following head (todo ++ x ∷ rest)) (length todo) m
      (not-head m head y done (todo ++ x ∷ rest) r) fits
      (next-Ring m head y done (todo ++ x ∷ rest) r)
    ∙ start_loop-Ring k head m (done ++ y ∷ []) todo x rest
        (rw (append_assoc done (y ∷ []) (todo ++ x ∷ rest)) r) (omega arith) (omega arith)
