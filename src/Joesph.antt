-- ===== src/Joesph.antt =====
-- 01DataStruct/04Kernel_list/joesph.c: people in a circle, of whom every `step`-th goes, over the links of
-- Links. A `size_t` keeps its wrap-around. `none` says that there were too few rounds, given as fuel.
pub mod Counting
pub mod Passes
pub mod Survivor
mod Tests
use demo_class.Common.{
  ℕ, zero, suc, ◌+◌, ◌-◌, ◌%◌, ◌^◌, true, false, Option, none, some, ◌>>=◌, ◌==◌, if◌then◌else◌,
}
use demo_class.Links.{Links, list_del}

-- the `list_for_each` up to the link where the counting starts
unfoldable pub start_loop : ℕ → ℕ → ℕ → ℕ → Links → Option ℕ
start_loop zero head cur start m = none
start_loop (suc k) head cur start m =
    let start' = (start + (2 ^ 64 - 1)) % 2 ^ 64 in
    let rest = start_loop k head (m.next cur) start' m in
    if cur == head then some head else if start' == 0 then some cur else rest

-- the `list_for_each_continue` from `cur`: the count and the links behind it
unfoldable pub continue_loop : ℕ → ℕ → ℕ → ℕ → ℕ → Links → Option (ℕ × Links)
unfolding list_del
continue_loop zero head step cur n m = none
continue_loop (suc k) head step cur n m = elim (cur == head) [
  | true ↦ some (n, m)
  | false ↦
      let n' = (n + 1) % 2 ^ 64 in
      let m' = if n' % step == 0 then list_del cur m else m in
      continue_loop k head step (m'.next cur) n' m'
]

-- the `while`, until the list has one link
unfoldable pub while_loop : ℕ → ℕ → ℕ → ℕ → ℕ → ℕ → Links → Option Links
unfolding continue_loop
while_loop zero f head step cur n m = none
while_loop (suc k) f head step cur n m = elim (m.next (m.next head) == head) [
  | true ↦ some m
  | false ↦
      continue_loop f head step (m.next cur) n m >>= λ r. while_loop k f head step head r.0 r.1
]

-- the link that is printed as the last one, and the links
unfoldable pub joesph_loop : ℕ → ℕ → ℕ → ℕ → Links → Option (ℕ × Links)
unfolding start_loop while_loop
joesph_loop k head start step m = start_loop k head (m.next head) start m >>= λ cur.
    while_loop k k head step (m.prev cur) 0 m >>= λ m'. some (m'.next head, m')
