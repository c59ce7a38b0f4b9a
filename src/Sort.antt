-- ===== src/Sort.antt =====
-- 01DataStruct/07Sort/sort_arrary.c: sorts of an array of `nmemb` elements by a `cmp` callback. The
-- array is what stands at each index of `base`; an index that may fall to -1 is kept one higher. A
-- `for` loop is a recursion on the number of its rounds. An array is taken to have fewer than 2^31
-- elements, so that the `int` indices do not overflow.
pub mod Elements
pub mod Bubble
pub mod Select
pub mod Insert
pub mod Shell
pub mod Partition
pub mod Quick
pub mod Merge
pub mod MergeSort
mod Tests
use demo_class.Common.{
  ℕ, zero, suc, ◌+◌, ◌/◌, ◌&&◌, leb, ◌-◌, ◌*◌, ◌%◌, ◌^◌, Bool, Ordering, Option, none, some, ◌>>=◌,
  ltb, ◌==◌, if◌then◌else◌,
}
use demo_class.Common.Order.{is_lt, is_gt, is_ge}

abbrev pub Array {ℓ} : Type ℓ → Type ℓ
Array A = ℕ → A

module _ {ℓ} {A : Type ℓ} where
  -- `memcpy(NtoPTR(i), v, size)`
  abbrev pub write : ℕ → A → Array A → Array A
  write i v a q = if q == i then v else a q

  unfoldable pub swap : ℕ → ℕ → Array A → Array A
  swap i j a = write j (a i) (write i (a j) a)

module _ {ℓ} {A : Type ℓ} (cmp : A → A → Ordering) where
  -- the inner loop of `bubble_sort`, with `k` rounds to go from `start`
  unfoldable pub bubble_pass : ℕ → ℕ → Array A → Array A
  unfolding swap
  bubble_pass zero start a = a
  bubble_pass (suc k) start a =
      bubble_pass k (suc start)
        (if is_gt (cmp (a start) (a (suc start))) then swap start (suc start) a else a)

  -- the outer loop, down from `end`
  unfoldable pub bubble_loop : ℕ → Array A → Array A
  unfolding bubble_pass
  bubble_loop zero a = a
  bubble_loop (suc e) a = bubble_loop e (bubble_pass (suc e) 0 a)

  unfoldable pub bubble_sort : ℕ → Array A → Array A
  unfolding bubble_loop
  bubble_sort nmemb a = bubble_loop (nmemb - 1) a

  -- the inner loop of `select_sort`, with `k` rounds to go from `j`: where the least element is
  unfoldable pub min_loop : ℕ → ℕ → ℕ → Array A → ℕ
  min_loop zero j min a = min
  min_loop (suc k) j min a = min_loop k (suc j) (if is_lt (cmp (a j) (a min)) then j else min) a

  -- the outer loop, with `k` rounds to go from `i`
  unfoldable pub select_loop : ℕ → ℕ → ℕ → Array A → Array A
  unfolding min_loop swap
  select_loop zero i nmemb a = a
  select_loop (suc k) i nmemb a =
      let min = min_loop (nmemb - suc i) (suc i) i a in
      select_loop k (suc i) nmemb (if min == i then a else swap i min a)

  -- `nmemb - 1` is a `size_t`: of an empty array it is the greatest one
  unfoldable pub select_sort : ℕ → Array A → Array A
  unfolding select_loop
  select_sort nmemb a = select_loop ((nmemb + (2 ^ 64 - 1)) % 2 ^ 64) 0 nmemb a

  -- the loop of `insert_sort` that moves elements up, and the `memcpy` behind it; `p` is `j + 1`
  unfoldable pub insert_shift : ℕ → A → Array A → Array A
  insert_shift zero buf a = write 0 buf a
  insert_shift (suc j) buf a =
      let rest = insert_shift j buf (write (suc j) (a j) a) in
      if is_gt (cmp (a j) buf) then rest else write (suc j) buf a

  -- the outer loop, with `k` rounds to go; `j` is `i - 1`
  unfoldable pub insert_loop : ℕ → ℕ → Array A → Array A
  unfolding insert_shift
  insert_loop zero j a = a
  insert_loop (suc k) j a =
      insert_loop k (suc j)
        (if is_ge (cmp (a (suc j)) (a j)) then a else insert_shift (suc j) (a (suc j)) a)

  unfoldable pub insert_sort : ℕ → Array A → Array A
  unfolding insert_loop
  insert_sort nmemb a = insert_loop (nmemb - 1) 0 a

  -- The same on the elements `offset + q * step` alone: `k + step` is the `p`th of them.
  unfoldable pub shell_shift : ℕ → ℕ → ℕ → A → Array A → Array A
  shell_shift step offset zero buf a = write offset buf a
  shell_shift step offset (suc q) buf a =
      let k = offset + q * step in
      let rest = shell_shift step offset q buf (write (k + step) (a k) a) in
      if is_gt (cmp (a k) buf) then rest else write (k + step) buf a

  -- the loop over `j`, whose `k` is the `q`th element; it ends when `j` has reached `nmemb`, `fuel`
  -- rounds at the most
  unfoldable pub shell_loop : ℕ → ℕ → ℕ → ℕ → ℕ → Array A → Array A
  unfolding shell_shift
  shell_loop zero step offset q nmemb a = a
  shell_loop (suc fuel) step offset q nmemb a =
      let k = offset + q * step in
      let j = k + step in
      let rest =
        shell_loop fuel step offset (suc q) nmemb
          (if is_ge (cmp (a j) (a k)) then a else shell_shift step offset (suc q) (a j) a) in
      if ltb j nmemb then rest else a

  -- `for (offset = 0; offset < step; ++offset)`, with `k` rounds to go
  unfoldable pub shell_pass : ℕ → ℕ → ℕ → ℕ → Array A → Array A
  unfolding shell_loop
  shell_pass zero step offset nmemb a = a
  shell_pass (suc k) step offset nmemb a =
      shell_pass k step (suc offset) nmemb (shell_loop nmemb step offset 0 nmemb a)

  unfoldable pub shell_sort : ℕ → Array A → Array A
  unfolding shell_pass
  shell_sort nmemb a = shell_pass 1 1 0 nmemb (shell_pass 2 2 0 nmemb (shell_pass 3 3 0 nmemb a))

-- where the loops of `__quick_sort` stand: at `left` and at `left + gap`, the source's `l` and `r`
pub record Ends {ℓ} (A : Type ℓ) : Type ℓ where
  pub left : ℕ
  pub gap : ℕ
  pub array : Array A

module _ {ℓ} {A : Type ℓ} where
  -- the array that begins at `NtoPTR(m)`, and the array whose elements from there on are `b`'s
  abbrev pub view : ℕ → Array A → Array A
  view m a i = a (m + i)

  abbrev pub splice : ℕ → Array A → Array A → Array A
  splice m b a i = if ltb i m then a i else b (i - m)

module _ {ℓ} {A : Type ℓ} (cmp : A → A → Ordering) where
  -- the loop from the right, for an element below the pivot `buf`
  unfoldable pub from_right : ℕ → ℕ → A → Array A → Ends A
  from_right zero l buf a = record { left = l; gap = 0; array = a }
  from_right (suc d) l buf a =
      let r = l + suc d in
      let rest = from_right d l buf a in
      if is_lt (cmp (a r) buf)
      then record { left = suc l; gap = d; array = write l (a r) a }
      else rest

  -- the loop from the left, for an element above it
  unfoldable pub from_left : ℕ → ℕ → A → Array A → Ends A
  from_left zero l buf a = record { left = l; gap = 0; array = a }
  from_left (suc d) l buf a =
      let r = l + suc d in
      let rest = from_left d (suc l) buf a in
      if is_gt (cmp (a l) buf) then record { left = l; gap = d; array = write r (a l) a } else rest

  -- both in turn until they meet, on fuel; where they have met the pivot is stored
  unfoldable pub partition : ℕ → ℕ → ℕ → A → Array A → Option (ℕ × Array A)
  unfolding from_right from_left
  partition zero l d buf a = none
  partition (suc k) l zero buf a = some (l, write l buf a)
  partition (suc k) l (suc d) buf a =
      let s = from_right (suc d) l buf a in
      let t = from_left s.gap s.left buf s.array in partition k t.left t.gap buf t.array

  -- `__quick_sort`, on fuel
  unfoldable pub quick_sort_rec : ℕ → ℕ → Array A → Option (Array A)
  unfolding partition
  quick_sort_rec zero nmemb a = none
  quick_sort_rec (suc k) nmemb a = if ltb nmemb 2 then some a else do
    cut ← partition nmemb 0 (nmemb - 1) (a 0) a
    b ← quick_sort_rec k cut.0 cut.1
    c ← quick_sort_rec k (nmemb - cut.0 - 1) (view (cut.0 + 1) b)
    some (splice (cut.0 + 1) c b)

  unfoldable pub quick_sort : ℕ → Array A → Option (Array A)
  unfolding quick_sort_rec
  quick_sort nmemb a = quick_sort_rec (nmemb + 1) nmemb a

-- `memcpy` of `len` elements, from `from` in `a` to `to` in `buf`
abbrev pub copy {ℓ} : {A : Type ℓ} → ℕ → ℕ → ℕ → Array A → Array A → Array A
copy len from to a buf i = if leb to i && ltb i (to + len) then a (from + (i - to)) else buf i

module _ {ℓ} {A : Type ℓ} (cmp : A → A → Ordering) where
  -- the loop of `__merge_sort`, on fuel, and the `memcpy` of what one half has left
  unfoldable pub merge_loop : ℕ → ℕ → ℕ → ℕ → ℕ → ℕ → Array A → Array A → Option (Array A)
  merge_loop zero half nmemb l r i a buf = none
  merge_loop (suc k) half nmemb l r i a buf =
      let left = is_lt (cmp (a l) (a r)) in
      let rest =
        merge_loop k half nmemb (if left then suc l else l) (if left then r else suc r) (suc i) a
          (write i (if left then a l else a r) buf) in
      let last = if ltb l half then copy (half - l) l i a buf else copy (nmemb - r) r i a buf in
      if ltb l half && ltb r nmemb then rest else some last

  -- the part of `__merge_sort` behind its recursive calls: what it leaves in `base` and in `buf`
  unfoldable pub merge : ℕ → Array A → Array A → Option (Array A × Array A)
  unfolding merge_loop
  merge nmemb a buf = merge_loop (nmemb + 1) (nmemb / 2) nmemb 0 (nmemb / 2) 0 a buf >>= λ b.
      some (copy nmemb 0 0 b a, b)

  -- `__merge_sort`, on fuel
  unfoldable pub merge_sort_rec : ℕ → ℕ → Array A → Array A → Option (Array A × Array A)
  unfolding merge
  merge_sort_rec zero nmemb a buf = none
  merge_sort_rec (suc k) nmemb a buf = if leb nmemb 1 then some (a, buf) else do
    s ← merge_sort_rec k (nmemb / 2) a buf
    t ← merge_sort_rec k (nmemb - nmemb / 2) (view (nmemb / 2) s.0) s.1
    merge nmemb (splice (nmemb / 2) t.0 s.0) t.1

  -- `buf` is what `calloc` gives
  unfoldable pub merge_sort : ℕ → Array A → Array A → Option (Array A)
  unfolding merge_sort_rec
  merge_sort nmemb a buf = merge_sort_rec (nmemb + 1) nmemb a buf >>= λ s. some s.0
