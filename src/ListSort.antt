-- ===== src/ListSort.antt =====
-- 01DataStruct/07Sort/sort_list.c (08Huffman holds a copy): sorts of a list of list.h by moving its links.
-- `cmp` reads the links' data by their addresses. The loops run on fuel, and `none` says that it was
-- too little.
pub mod Swap
pub mod Insert
pub mod Ordered
mod Tests
use demo_class.Common.{ℕ, zero, suc, ◌||◌, Option, none, some, ◌>>=◌, Ordering, ◌==◌, if◌then◌else◌}
use demo_class.Common.Order.{is_lt, is_le, is_gt, is_ge}
use demo_class.Links.{Links, list_head_init, list_insert, list_del}

-- `node` is the address of the local variable
unfoldable pub swap : ℕ → ℕ → ℕ → Links → Links
unfolding list_head_init list_insert list_del
swap node pa pb m =
    let m₀ = list_head_init node m in
    let m₁ = list_del pa (list_insert node pa (m₀.next pa) m₀) in
    let m₂ = list_del pb (list_insert pa pb (m₁.next pb) m₁) in
    list_del node (list_insert pb node (m₂.next node) m₂)

module _ (cmp : ℕ → ℕ → Ordering) (node : ℕ) where
  -- the inner loop of `bubble_sort`: where it leaves `end`, and the links
  unfoldable pub bubble_pass : ℕ → ℕ → ℕ → ℕ → Links → Option (ℕ × Links)
  unfolding swap
  bubble_pass zero head start end m = none
  bubble_pass (suc k) head start end m =
      let above = is_gt (cmp start (m.next start)) in
      let m' = if above then swap node start (m.next start) m else m in
      let start' = if above then m'.prev start else start in
      let end' = if above then (if start' == end then m'.next end else end) else end in
      let rest = bubble_pass k head (m'.next start') end' m' in
      if start == head || start == end then some (end, m) else rest

  unfoldable pub bubble_loop : ℕ → ℕ → ℕ → Links → Option Links
  unfolding bubble_pass
  bubble_loop zero head end m = none
  bubble_loop (suc k) head end m =
      let rest =
        bubble_pass k head (m.next head) end m >>= λ r. bubble_loop k head (r.1.prev r.0) r.1 in
      if end == head then some m else rest

  unfoldable pub bubble_sort : ℕ → ℕ → Links → Option Links
  unfolding bubble_loop
  bubble_sort k head m = bubble_loop k head (m.prev head) m

  unfoldable pub min_loop : ℕ → ℕ → ℕ → ℕ → Links → Option ℕ
  min_loop zero head j min m = none
  min_loop (suc k) head j min m =
      let rest = min_loop k head (m.next j) (if is_lt (cmp j min) then j else min) m in
      if j == head then some min else rest

  unfoldable pub select_loop : ℕ → ℕ → ℕ → Links → Option Links
  unfolding min_loop swap
  select_loop zero head i m = none
  select_loop (suc k) head i m =
      let rest = min_loop k head (m.next i) i m >>= λ min.
      let m' = if min == i then m else swap node min i m in select_loop k head (m'.next min) m' in
      if i == m.prev head then some m else rest

  unfoldable pub select_sort : ℕ → ℕ → Links → Option Links
  unfolding select_loop
  select_sort k head m = select_loop k head (m.next head) m

module _ (cmp : ℕ → ℕ → Ordering) where
  -- the inner loop of `insert_sort`, and the insertion behind the head where it has found no place
  unfoldable pub place_loop : ℕ → ℕ → ℕ → ℕ → Links → Option Links
  unfolding list_insert
  place_loop zero head i j m = none
  place_loop (suc k) head i j m =
      let rest = place_loop k head i (m.prev j) m in
      if j == head
      then some (list_insert i j (m.next j) m)
      else if is_le (cmp j i)
      then some (list_insert i j (m.next j) m)
      else rest

  unfoldable pub insert_loop : ℕ → ℕ → ℕ → Links → Option Links
  unfolding place_loop list_del
  insert_loop zero head i m = none
  insert_loop (suc k) head i m =
      let rest =
        (if is_ge (cmp i (m.prev i)) then some m else place_loop k head i (m.prev i) (list_del i m))
        >>= insert_loop k head (m.next i) in
      if i == head then some m else rest

  unfoldable pub insert_sort : ℕ → ℕ → Links → Option Links
  unfolding insert_loop
  insert_sort k head m = insert_loop k head (m.next (m.next head)) m
